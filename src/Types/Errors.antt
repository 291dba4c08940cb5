-- ===== src/Types/Errors.antt =====
-- ErrorAccumulator (src/common/types.go). An error is its text, and nil is `none`.
use mayastor_e2e.Prelude.{◌≡◌, refl, String, List, [], ◌∷◌, ◌++◌, Option, none, some, concat, ◌≢◌}

-- The errors, the first one first.
abbrev pub ErrorAccumulator : Type 0
ErrorAccumulator = List String

-- Accumulate
unfoldable pub accumulate : ErrorAccumulator → Option String → ErrorAccumulator
accumulate acc none = acc
accumulate acc (some e) = acc ++ (e ∷ [])

-- The loop of GetError, with the error so far.
unfoldable pub join_errors : Option String → ErrorAccumulator → Option String
unfolding concat
join_errors err [] = err
join_errors none (e ∷ errs) = join_errors (some e) errs
join_errors (some err) (e ∷ errs) = join_errors (some (concat (err ∷ "; " ∷ e ∷ []))) errs

-- GetError
unfoldable pub get_error : ErrorAccumulator → Option String
unfolding join_errors
get_error acc = join_errors none acc

pub join_errors-some :
    (e : String) (acc : ErrorAccumulator) → (t : String) × (join_errors (some e) acc ≡ some t)
unfolding join_errors
join_errors-some e [] = (e, refl)
join_errors-some e (x ∷ acc) = join_errors-some (concat (e ∷ "; " ∷ x ∷ [])) acc

-- GetError is nil exactly where nothing has been accumulated.
pub get_error-none : (acc : ErrorAccumulator) → get_error acc ≡ none → acc ≡ []
unfolding get_error join_errors
get_error-none [] h = refl
get_error-none (e ∷ acc) h = let (t, p) = join_errors-some e acc in cc (p, h)

-- What is accumulated to is empty only where it was and the error is nil.
pub accumulate_empty :
    (acc : ErrorAccumulator) (e : Option String) → accumulate acc e ≡ [] → (acc ≡ []) × (e ≡ none)
unfolding accumulate
accumulate_empty acc none h = (h, refl)
accumulate_empty acc (some e) h = elim (nonempty acc e h) [ ]
  where
    nonempty : (l : List String) (t : String) → (l ++ (t ∷ [])) ≢ []
    nonempty [] t p = cc p
    nonempty (x ∷ l) t p = cc p
