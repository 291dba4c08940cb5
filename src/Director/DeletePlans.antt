-- ===== src/Director/DeletePlans.antt =====
-- DELETE of one test plan and of all of them (test_plans.go, test_plans_cache.go).
use mayastor_e2e.Prelude.{
  ◌≡◌, refl, sym, ◌∙◌, ap, String, ◌==◌, eq_iff, List, [], ◌∷◌, map, Option, none, some, Bool, true,
  false, not, ◌&&◌, ◌||◌, if◌then◌else◌, arith, ok, text_self, or_nil, ℕ, suc, ◌+◌, bind_option,
}
use mayastor_e2e.GoMap.{lookup, Distinct}
use mayastor_e2e.Cache.Typed
use mayastor_e2e.Models.{TestPlan}
use mayastor_e2e.Director.{Platform, State, outcome, no_content, not_found, done}
use mayastor_e2e.Director.TestPlanCache
use mayastor_e2e.Director.TestPlanCache.{kept, delete_inactive, delete_all}
use mayastor_e2e.Director.TestPlans.{delete_test_plan, delete_test_plans}
use mayastor_e2e.Director.ActivePlan.{AreKeyed, AreKeyed-tail}
use mayastor_e2e.Director.SoundPlans.{IsSound, delete-IsSound}

-- Whether an inactive plan of the list has the key.
drops : String → List TestPlan → Bool
drops k [] = false
drops k (a ∷ rest) = (a.key == k && not a.is_active) || drops k rest

abbrev pub only_active : TestPlan → Option TestPlan
only_active a = if a.is_active then some a else none

-- How many plans of the list are inactive.
abbrev pub count_inactive : List TestPlan → ℕ
count_inactive [] = 0
count_inactive (a ∷ rest) = (if a.is_active then 0 else 1) + count_inactive rest

drops-absent :
    (k : String) (m : List (String × TestPlan))
    → Distinct m
    → AreKeyed m
    → lookup k m ≡ none
    → drops k (map (λ e. e.1) m) ≡ false
unfolding drops lookup
drops-absent k [] d h e = refl
drops-absent k ((i, a) ∷ m) d h e =
    ground (arith, h i a (rw (text_self i)), drops-absent k m d.1 (AreKeyed-tail i a m d h))

keep_active :
    (k : String) (m : List (String × TestPlan))
    → Distinct m
    → AreKeyed m
    → (if drops k (map (λ e. e.1) m) then none else lookup k m)
      ≡ bind_option (lookup k m) only_active
unfolding drops lookup
keep_active k [] d h = refl
keep_active k ((i, a) ∷ m) d h =
    let e : a.key ≡ i = h i a (rw (text_self i)) in
    ground (
      arith,
      e,
      d.0,
      eq_iff i k,
      drops-absent i m d.1 (AreKeyed-tail i a m d h),
      keep_active k m d.1 (AreKeyed-tail i a m d h),
    )

module _ (p : Platform) where
  open p use {cache, plan_codec}

  get-kept :
      (s : cache.Store) (key k : String)
      → TestPlanCache.get p (kept p s (TestPlanCache.delete p s key)) k
        ≡ (if key == k then none else TestPlanCache.get p s k)
  unfolding Typed.remove
  get-kept s key k = ground (arith, Typed.fetch-delete cache plan_codec s key k, eq_iff key k)

  kept-IsSound :
      (s : cache.Store) (key : String)
      → IsSound p s
      → IsSound p (kept p s (TestPlanCache.delete p s key))
  unfolding Typed.remove
  kept-IsSound s key v = ground (arith, delete-IsSound p s key v)

  get-delete_inactive :
      (items : List TestPlan) (s : cache.Store) (n : ℕ) (k : String)
      → TestPlanCache.get p (delete_inactive p items s n).0 k
        ≡ (if drops k items then none else TestPlanCache.get p s k)
  unfolding delete_inactive drops
  get-delete_inactive [] s n k = refl
  get-delete_inactive (a ∷ rest) s n k = ground (
    arith,
    get-kept s a.key k,
    get-delete_inactive rest (if a.is_active then s else kept p s (TestPlanCache.delete p s a.key))
        (if a.is_active then n else suc n) k,
  )

  delete_inactive_count :
      (items : List TestPlan) (s : cache.Store) (n : ℕ)
      → (delete_inactive p items s n).1 ≡ n + count_inactive items
  unfolding delete_inactive
  delete_inactive_count [] s n = ground arith
  delete_inactive_count (a ∷ rest) s n = ground (
    arith,
    delete_inactive_count rest
        (if a.is_active then s else kept p s (TestPlanCache.delete p s a.key))
        (if a.is_active then n else suc n),
  )

  delete_inactive-IsSound :
      (items : List TestPlan) (s : cache.Store) (n : ℕ)
      → IsSound p s
      → IsSound p (delete_inactive p items s n).0
  unfolding delete_inactive
  delete_inactive-IsSound [] s n v = v
  delete_inactive-IsSound (a ∷ rest) s n v = delete_inactive-IsSound rest _ _ (choose a.is_active)
    where
      choose : (b : Bool) → IsSound p (if b then s else kept p s (TestPlanCache.delete p s a.key))
      choose true = v
      choose false = kept-IsSound s a.key v

  -- If the plans are sound, DELETE of all plans removes exactly those that are not active, answers
  -- with how many they were, and leaves the plans sound.
  pub delete_test_plans_lem :
      (st : State p)
      → IsSound p st.plans
      → let (r, st') = delete_test_plans p st in
        (r
          ≡ ok (
              outcome (record {
                details = "Deleted all test plans instead of active one";
                items_affected = count_inactive (or_nil (TestPlanCache.get_all p st.plans));
                result = done;
              })))
        × ((k : String)
            → TestPlanCache.get p st'.plans k
              ≡ bind_option (TestPlanCache.get p st.plans k) only_active)
        × IsSound p st'.plans
  unfolding delete_test_plans delete_all
  delete_test_plans_lem st v =
      let (m, l, e) = Typed.listing cache plan_codec st.plans v.filed.readable in
      let keyed : AreKeyed m = λ i a q. v.filed.keyed i a (sym (l.found i) ∙ q) in
      let items = or_nil (TestPlanCache.get_all p st.plans) in
      (
        ground (arith, delete_inactive_count items st.plans 0),
        (λ k.
            get-delete_inactive items st.plans 0 k
            ∙ ground (
              arith,
              ap (drops k) (ap or_nil e ∙ Typed.or_nil-as_slice cache plan_codec m),
              l.found k,
              keep_active k m l.distinct keyed,
            )),
        delete_inactive-IsSound items st.plans 0 v,
      )

  -- If the plans are sound, DELETE of one plan removes it, or answers that it was not there; no
  -- other plan changes, and the plans stay sound.
  pub delete_test_plan_lem :
      (id : String) (st : State p)
      → IsSound p st.plans
      → let (r, st') = delete_test_plan p id st in
        (r ≡ ok (elim (TestPlanCache.get p st.plans id) [ none ↦ not_found | some _ ↦ no_content ]))
        × ((k : String)
            → TestPlanCache.get p st'.plans k
              ≡ (if id == k then none else TestPlanCache.get p st.plans k))
        × IsSound p st'.plans
  unfolding delete_test_plan Typed.remove
  delete_test_plan_lem id st v = (
    ground arith,
    (λ k. ground (arith, Typed.fetch-delete cache plan_codec st.plans id k, eq_iff id k)),
    ground (arith, delete-IsSound p st.plans id v),
  )
