-- ===== src/Director/TestPlanCache.antt =====
-- src/tools/extended-test-framework/test_director/handlers/test_plans_cache.go: TestPlanCache.
use mayastor_e2e.Prelude.{
  ℕ, suc, String, List, [], ◌∷◌, Option, none, some, Outcome, ok, err, panic, or_nil, if◌then◌else◌,
  concat,
}
use mayastor_e2e.Cache.Typed
use mayastor_e2e.Models.{TestPlan}
use mayastor_e2e.Director.{Platform, RequestOutcome, done}

module _ (p : Platform) where
  open p use {Bytes, cache, plan_codec}

  abbrev pub get : cache.Store → String → Option TestPlan
  get = Typed.fetch cache plan_codec

  abbrev pub get_all : cache.Store → Option (List TestPlan)
  get_all = Typed.fetch_all cache plan_codec

  abbrev pub set : cache.Store → String → TestPlan → Outcome cache.Store
  set = Typed.store cache plan_codec

  -- `Set` by callers that drop its error.
  abbrev pub put : cache.Store → String → TestPlan → cache.Store
  put = Typed.put cache plan_codec

  abbrev pub delete : cache.Store → String → Outcome cache.Store
  delete s key =
      Typed.remove cache plan_codec (concat ("test palan key: " ∷ key ∷ " not found" ∷ [])) s key

  -- The loop of GetActive over the entries of the cache.
  unfoldable pub first_active : List (String × Bytes) → Option TestPlan
  first_active [] = none
  first_active ((k, b) ∷ es) = elim (plan_codec.unmarshal b) [
    | none ↦ none
    | some plan ↦ if plan.is_active then some plan else first_active es
  ]

  unfoldable pub get_active : cache.Store → Option TestPlan
  unfolding first_active
  get_active s = first_active (cache.items s)

  abbrev pub kept : cache.Store → Outcome cache.Store → cache.Store
  kept s (ok s') = s'
  kept s (err e) = s
  kept s panic = s

  -- The loop of DeleteAll, with its counter.
  unfoldable pub delete_inactive : List TestPlan → cache.Store → ℕ → cache.Store × ℕ
  delete_inactive [] s n = (s, n)
  delete_inactive (item ∷ items) s n =
      delete_inactive items (if item.is_active then s else kept s (delete s item.key))
        (if item.is_active then n else suc n)

  unfoldable pub delete_all : cache.Store → RequestOutcome × cache.Store
  unfolding delete_inactive
  delete_all s =
      let (s', counter) = delete_inactive (or_nil (get_all s)) s 0 in
      (
        record {
          details = "Deleted all test plans instead of active one";
          items_affected = counter;
          result = done;
        },
        s',
      )
