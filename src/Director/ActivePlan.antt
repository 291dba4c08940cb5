-- ===== src/Director/ActivePlan.antt =====
-- The cache of test plans under the handlers of test_plans.go: what it holds, and that never two
-- plans are active.
use mayastor_e2e.Prelude.{
  ◌≡◌, refl, sym, ◌∙◌, ap, inl, inr, String, ◌==◌, eq_iff, List, [], ◌∷◌, map, Option, none, some,
  if◌then◌else◌, arith, or_else, or_nil, map_option, text_cases, text_self,
}
use mayastor_e2e.GoMap.{lookup, Distinct}
use mayastor_e2e.Cache.Typed
use mayastor_e2e.Models.{TestPlan}
use mayastor_e2e.Director.{Platform}
use mayastor_e2e.Director.TestPlanCache
use mayastor_e2e.Director.TestPlans.{deactivated, deactivate}

-- The last plan of a list that has the key.
last_with : String → List TestPlan → Option TestPlan
last_with k [] = none
last_with k (a ∷ rest) = or_else (last_with k rest) (if a.key == k then some a else none)

abbrev pub AreKeyed : List (String × TestPlan) → Type 0
AreKeyed m = (k : String) (a : TestPlan) → lookup k m ≡ some a → a.key ≡ k

pub AreKeyed-tail :
    (i : String) (a : TestPlan) (m : List (String × TestPlan))
    → Distinct ((i, a) ∷ m)
    → AreKeyed ((i, a) ∷ m)
    → AreKeyed m
unfolding lookup
AreKeyed-tail i a m d h k b e = elim (text_cases i k) [
  | inl (_, q) ↦ absurd (cc (d.0, ap (λ x. lookup x m) q, e))
  | inr (t, _) ↦ h k b (rw t e)
]

last_with-values :
    (k : String) (m : List (String × TestPlan))
    → Distinct m
    → AreKeyed m
    → last_with k (map (λ e. e.1) m) ≡ lookup k m
unfolding last_with lookup
last_with-values k [] d h = refl
last_with-values k ((i, a) ∷ m) d h =
    let e : a.key ≡ i = h i a (rw (text_self i)) in
    ground (
      arith,
      e,
      d.0,
      eq_iff i k,
      eq_iff a.key k,
      last_with-values k m d.1 (AreKeyed-tail i a m d h),
    )

map_or_else :
    (o : Option TestPlan) → or_else (map_option deactivated o) o ≡ map_option deactivated o
map_or_else none = refl
map_or_else (some a) = refl

module _ (p : Platform) where
  open p use {cache, plan_codec}

  get-deactivate :
      (items : List TestPlan) (s : cache.Store) (k : String)
      → TestPlanCache.get p (deactivate p items s) k
        ≡ or_else (map_option deactivated (last_with k items)) (TestPlanCache.get p s k)
  unfolding deactivate last_with
  get-deactivate [] s k = refl
  get-deactivate (a ∷ rest) s k = ground (
    arith,
    get-deactivate rest (TestPlanCache.put p s a.key (deactivated a)) k,
    Typed.fetch-put cache plan_codec s a.key k (deactivated a),
  )

  pub deactivate-IsReadable :
      (items : List TestPlan) (s : cache.Store)
      → Typed.IsReadable cache plan_codec s
      → Typed.IsReadable cache plan_codec (deactivate p items s)
  unfolding deactivate
  deactivate-IsReadable [] s r = r
  deactivate-IsReadable (a ∷ rest) s r =
      deactivate-IsReadable rest _ (Typed.put-IsReadable cache plan_codec s a.key (deactivated a) r)

  -- Every record is a plan that stands under its own key.
  pub record IsFiled (s : cache.Store) : Type 0 where
    pub readable : Typed.IsReadable cache plan_codec s
    pub keyed : (k : String) (a : TestPlan) → TestPlanCache.get p s k ≡ some a → a.key ≡ k

  abbrev pub deactivate_all : cache.Store → cache.Store
  deactivate_all s = deactivate p (or_nil (TestPlanCache.get_all p s)) s

  -- The loop over all plans changes nothing but the activity, which it ends everywhere.
  pub get-deactivate_all :
      (s : cache.Store) (k : String)
      → IsFiled s
      → TestPlanCache.get p (deactivate_all s) k ≡ map_option deactivated (TestPlanCache.get p s k)
  get-deactivate_all s k f =
      let (m, l, e) = Typed.listing cache plan_codec s f.readable in
      let keyed : AreKeyed m = λ i a q. f.keyed i a (sym (l.found i) ∙ q) in
      rw (e, Typed.or_nil-as_slice cache plan_codec m)
        (get-deactivate (map (λ e. e.1) m) s k
          ∙ rw (last_with-values k m l.distinct keyed, l.found k)
              (map_or_else (TestPlanCache.get p s k)))
