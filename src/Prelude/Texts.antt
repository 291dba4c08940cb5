-- ===== src/Prelude/Texts.antt =====
-- Texts put together from parts, as `fmt.Sprintf`, `+` and `strings.Join` do.
use Prim.Native.String
use Prim.Native.String.{String}
use Prim.Native.Char.{code}
use Prim.Native.Nat.{ℕ, ◌+◌, ◌*◌, ◌-◌}
use mathlib.Core.List.{List, [], ◌∷◌}
use mathlib.Core.Bool.{Bool, true, false, ◌&&◌, ◌||◌}
use mathlib.Core.Option.{Option, none, some}
use mayastor_e2e.Prelude.Tests.{eqb, leb, if◌then◌else◌}
use mayastor_e2e.Prelude.Int.{ℤ, pos, minus}

-- The parts one after another.
unfoldable pub concat : List String → String
concat [] = ""
concat (s ∷ ss) = String.◌++◌ s (concat ss)

-- `strings.Join(parts, sep)`
unfoldable pub join : String → List String → String
unfolding concat
join sep [] = ""
join sep (s ∷ []) = s
join sep (s ∷ t ∷ ss) = concat (s ∷ sep ∷ join sep (t ∷ ss) ∷ [])

-- `strings.HasPrefix(t, s)`
unfoldable pub has_prefix : String → String → Bool
has_prefix String.[] t = true
has_prefix (String.◌∷◌ c s) String.[] = false
has_prefix (String.◌∷◌ c s) (String.◌∷◌ d t) = eqb (code c) (code d) && has_prefix s t

-- `strings.Contains(t, s)`
unfoldable pub contains : String → String → Bool
unfolding has_prefix
contains String.[] s = has_prefix s ""
contains (String.◌∷◌ c t) s = has_prefix s (String.◌∷◌ c t) || contains t s

-- `strings.Split(s, sep)[0]` for the separator of one character: the text before its first occurrence.
unfoldable pub before : ℕ → String → String
before sep String.[] = ""
before sep (String.◌∷◌ c s) =
    let rest = before sep s in if eqb (code c) sep then "" else String.◌∷◌ c rest

-- The number that the digits of a text stand for, after those already read.
unfoldable pub digits : String → ℕ → Option ℕ
digits String.[] n = some n
digits (String.◌∷◌ c s) n =
    let rest = digits s (n * 10 + (code c - b'0')) in
    if leb b'0' (code c) && leb (code c) b'9' then rest else none

-- The value of an int64_t, where it is in range.
unfoldable pub in_range : Bool → Option ℕ → Option ℤ
in_range negative none = none
in_range true (some n) = if leb n 9_223_372_036_854_775_808 then some (minus n) else none
in_range false (some n) = if leb n 9_223_372_036_854_775_807 then some (pos n) else none

-- At least one digit.
unfoldable pub number : String → Option ℕ
unfolding digits
number String.[] = none
number (String.◌∷◌ c s) = digits (String.◌∷◌ c s) 0

-- `strconv.Atoi`; `none` is an error.
unfoldable pub atoi : String → Option ℤ
unfolding in_range number
atoi String.[] = none
atoi (String.◌∷◌ c s) =
    if eqb (code c) b'-'
    then in_range true (number s)
    else if eqb (code c) b'+'
    then in_range false (number s)
    else in_range false (number (String.◌∷◌ c s))
