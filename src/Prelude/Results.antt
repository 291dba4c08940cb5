-- ===== src/Prelude/Results.antt =====
-- What a Go call leaves behind: a value, an error value, or a panic.
use Prim.Native.String.{String}
use mathlib.Core.Bool.{Bool, true, false}
use mathlib.Core.Option.{Option, none, some}

pub data Outcome {ℓ} (A : Type ℓ) : Type ℓ where
  ok : A → Outcome A
  err : String → Outcome A
  panic : Outcome A

infixl 5 ◌>>=◌
abbrev pub ◌>>=◌ {ℓ κ} : {A : Type ℓ} {B : Type κ} → Outcome A → (A → Outcome B) → Outcome B
ok a >>= f = f a
err e >>= f = err e
panic >>= f = panic

-- `*p` at a pointer that may be nil.
abbrev pub deref {ℓ} : {A : Type ℓ} → Option A → Outcome A
deref none = panic
deref (some a) = ok a

-- `if !b { panic }`, where the panic is a nil dereference.
abbrev pub demand : Bool → Outcome (Unit {0})
demand true = ok tt
demand false = panic

-- `if p == nil { return errors.New(e) }`
abbrev pub or_fail {ℓ} : {A : Type ℓ} → Option A → String → Outcome A
or_fail none e = err e
or_fail (some a) e = ok a

-- `if !b { return errors.New(e) }`
abbrev pub require : Bool → String → Outcome (Unit {0})
require true e = ok tt
require false e = err e
