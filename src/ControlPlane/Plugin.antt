-- ===== src/ControlPlane/Plugin.antt =====
-- The commands of the kubectl plugin that the control plane runs (src/common/controlplane/v1). The
-- plugin's answer to a command is a parameter, and so are the JSON decoders and the expressions.
use mayastor_e2e.Prelude.{
  String, ◌==◌, List, Option, none, some, Outcome, ok, err, panic, Bool, false, contains,
  if◌then◌else◌,
}

-- What `cmd.CombinedOutput()` gives: the text, and the error if there is one.
pub record Output : Type 0 where
  pub text : String
  pub error : Option String

-- The answer to the arguments of a command.
abbrev pub Plugin : Type 0
Plugin = List String → Output

-- A command of nodes or volumes has failed also where its output contains ErrOutput.
unfoldable pub checked : Output → Outcome String
unfolding contains
checked o = elim o.error [
  | some e ↦ err e
  | none ↦ if contains o.text "Error error" then err o.text else ok o.text
]

-- A command of pools has failed where it ends with an error.
unfoldable pub unchecked : Output → Outcome String
unchecked o = elim o.error [ some e ↦ err e | none ↦ ok o.text ]

-- The answer, decoded. A text that does not decode is the error.
unfoldable pub decoded {ℓ} : {A : Type ℓ} → (String → Option A) → Outcome String → Outcome A
decoded json (ok t) = elim (json t) [ none ↦ err t | some a ↦ ok a ]
decoded json (err e) = err e
decoded json panic = panic

-- HasNotFoundRestJsonError, where `find_submatch` gives the group that the expression
-- `Error error in response.*RestJsonError.*kind:\s*(\w+)` matches.
unfoldable pub has_not_found_error : (String → Option String) → String → Bool
has_not_found_error find_submatch str = elim (find_submatch str) [
  | none ↦ false
  | some kind ↦ kind == "NotFound"
]
