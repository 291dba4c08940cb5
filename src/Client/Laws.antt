-- ===== src/Client/Laws.antt =====
-- What the clients of the test director send, and when they stop waiting for it
-- (src/tools/extended-test-framework/common/test_director_lib.go).
use Prim.Native.String.{String}
use Prim.Native.Char.{code}
use mayastor_e2e.Prelude.{
  ℕ, zero, suc, ◌+◌, ◌<◌, ◌≡◌, refl, ap, ◌∙◌, List, ◌∷◌, Outcome, ok, Bool, true, not, ◌&&◌, eqb,
  arith,
}
use mayastor_e2e.Models.{TestPlan}
use mayastor_e2e.Client.{
  replace_newlines, replace_quotes, remove_special, has_plan, wait_test_director,
}

-- Neither a newline nor a quote.
pub is_plain : String → Bool
is_plain String.[] = true
is_plain (String.◌∷◌ c s) = not (eqb (code c) b'\n') && not (eqb (code c) b'"') && is_plain s

no_newline : String → Bool
no_newline String.[] = true
no_newline (String.◌∷◌ c s) = not (eqb (code c) b'\n') && no_newline s

no_newline-replace_newlines : (s : String) → no_newline (replace_newlines s) ≡ true
unfolding no_newline replace_newlines
no_newline-replace_newlines String.[] = refl
no_newline-replace_newlines (String.◌∷◌ c s) = ground (arith, no_newline-replace_newlines s)

is_plain-replace_quotes : (s : String) → no_newline s ≡ true → is_plain (replace_quotes s) ≡ true
unfolding is_plain no_newline replace_quotes
is_plain-replace_quotes String.[] h = refl
is_plain-replace_quotes (String.◌∷◌ c s) h = ground (arith, is_plain-replace_quotes s)

-- What removespecial returns has neither a newline nor a quote.
pub remove_special-is_plain : (s : String) → is_plain (remove_special s) ≡ true
unfolding remove_special
remove_special-is_plain s =
    is_plain-replace_quotes (replace_newlines s) (no_newline-replace_newlines s)

wait_from :
    (k r i : ℕ) (answers : ℕ → Outcome (List TestPlan))
    → k < r
    → has_plan (answers (i + k)) ≡ true
    → wait_test_director r i answers ≡ true
unfolding wait_test_director
wait_from k zero i answers lt h = absurd (omega arith)
wait_from zero (suc r) i answers lt h =
    let now : has_plan (answers i) ≡ true = ap (λ n. has_plan (answers n)) (omega arith) ∙ h in
    rw now refl
wait_from (suc k) (suc r) i answers lt h =
    let later : has_plan (answers (suc i + k)) ≡ true =
      ap (λ n. has_plan (answers n)) (omega arith) ∙ h in
    ground (arith, wait_from k r (suc i) answers (omega arith) later)

-- If the director answers the call `k` with a test plan, `k + 1` rounds of WaitTestDirector are
-- enough.
pub wait_test_director_ends :
    (k : ℕ) (answers : ℕ → Outcome (List TestPlan)) (tp : TestPlan) (tps : List TestPlan)
    → answers k ≡ ok (tp ∷ tps)
    → wait_test_director (suc k) 0 answers ≡ true
wait_test_director_ends k answers tp tps e =
    wait_from k (suc k) 0 answers (omega arith)
      (ap (λ n. has_plan (answers n)) (omega arith) ∙ ap has_plan e)
