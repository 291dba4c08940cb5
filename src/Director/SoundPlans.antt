-- ===== src/Director/SoundPlans.antt =====
-- A sound cache of test plans: each plan stands under its own key, and at most one is active. Here
-- are the single writes of the handlers; none of them breaks it.
use mayastor_e2e.Prelude.{
  ◌≡◌, sym, ◌∙◌, ap, inl, inr, String, eq_iff, List, [], ◌∷◌, some, true, arith, bind_option,
  text_self, Option-cases, Bool-cases,
}
use mayastor_e2e.GoMap.{lookup, Distinct}
use mayastor_e2e.Cache.Typed
use mayastor_e2e.Models.{TestPlan}
use mayastor_e2e.Director.{Platform}
use mayastor_e2e.Director.TestPlanCache
use mayastor_e2e.Director.TestPlanCache.{get_active, first_active}
use mayastor_e2e.Director.ActivePlan.{
  IsFiled, deactivate_all, get-deactivate_all, deactivate-IsReadable,
}

module _ (p : Platform) where
  open p use {cache, plan_codec, Bytes}

  abbrev pub OneActive : cache.Store → Type 0
  OneActive s =
      (j k : String) (a b : TestPlan)
      → TestPlanCache.get p s j ≡ some a
      → TestPlanCache.get p s k ≡ some b
      → a.is_active ≡ true
      → b.is_active ≡ true
      → j ≡ k

  pub record IsSound (s : cache.Store) : Type 0 where
    pub filed : IsFiled p s
    pub one_active : OneActive s

  pub new-IsSound : IsSound cache.new
  new-IsSound = record {
    filed = record {
      readable = Typed.new-IsReadable cache plan_codec;
      keyed = λ k a e. absurd (cc (Typed.fetch-new cache plan_codec k, e));
    };
    one_active = λ j k a b e f x y. absurd (cc (Typed.fetch-new cache plan_codec j, e));
  }

  pub put-IsFiled :
      (s : cache.Store) (k : String) (a : TestPlan)
      → a.key ≡ k
      → IsFiled p s
      → IsFiled p (TestPlanCache.put p s k a)
  put-IsFiled s k a e f = record {
    readable = Typed.put-IsReadable cache plan_codec s k a f.readable;
    keyed =
        λ i b q. ground (arith, Typed.fetch-put cache plan_codec s k i a, eq_iff k i, f.keyed i b);
  }

  -- A plan whose activity is what it was is written back.
  pub put_same-OneActive :
      (s : cache.Store) (k : String) (a b : TestPlan)
      → TestPlanCache.get p s k ≡ some a
      → b.is_active ≡ a.is_active
      → OneActive s
      → OneActive (TestPlanCache.put p s k b)
  put_same-OneActive s k a b e same one i j x y ei ej ax ay = ground (
    arith,
    Typed.fetch-put cache plan_codec s k i b,
    Typed.fetch-put cache plan_codec s k j b,
    eq_iff k i,
    eq_iff k j,
    one i j x y,
    one k j a y,
    one i k x a,
  )

  pub put_same-IsSound :
      (s : cache.Store) (k : String) (a b : TestPlan)
      → TestPlanCache.get p s k ≡ some a
      → b.is_active ≡ a.is_active
      → b.key ≡ a.key
      → IsSound s
      → IsSound (TestPlanCache.put p s k b)
  put_same-IsSound s k a b e same key v = record {
    filed = put-IsFiled s k b (key ∙ v.filed.keyed k a e) v.filed;
    one_active = put_same-OneActive s k a b e same v.one_active;
  }

  pub delete-IsSound : (s : cache.Store) (k : String) → IsSound s → IsSound (cache.delete s k)
  delete-IsSound s k v = record {
    filed = record {
      readable = Typed.delete-IsReadable cache plan_codec s k v.filed.readable;
      keyed = λ i a q. ground (arith, Typed.fetch-delete cache plan_codec s k i, v.filed.keyed i a);
    };
    one_active = λ i j a b ei ej x y. ground (
      arith,
      Typed.fetch-delete cache plan_codec s k i,
      Typed.fetch-delete cache plan_codec s k j,
      v.one_active i j a b,
    );
  }

  -- An active plan is written after the others were deactivated.
  pub replace-IsSound :
      (s : cache.Store) (k : String) (a : TestPlan)
      → a.key ≡ k
      → IsFiled p s
      → IsSound (TestPlanCache.put p (deactivate_all p s) k a)
  replace-IsSound s k a e f = record {
    filed = put-IsFiled (deactivate_all p s) k a e (record {
      readable = deactivate-IsReadable p _ s f.readable;
      keyed = λ i b q. elim (Option-cases (TestPlanCache.get p s i)) [
        | inl n ↦ absurd (ground (arith, get-deactivate_all p s i f))
        | inr (c, found) ↦ ground (arith, get-deactivate_all p s i f, f.keyed i c found)
      ];
    });
    one_active = λ i j x y ei ej ax ay. ground (
      arith,
      Typed.fetch-put cache plan_codec (deactivate_all p s) k i a,
      Typed.fetch-put cache plan_codec (deactivate_all p s) k j a,
      get-deactivate_all p s i f,
      get-deactivate_all p s j f,
      eq_iff k i,
      eq_iff k j,
    );
  }

  first_active_found :
      (es : List (String × Bytes)) (a : TestPlan)
      → Distinct es
      → first_active p es ≡ some a
      → (k : String) × (bind_option (lookup k es) plan_codec.unmarshal ≡ some a)
        × (a.is_active ≡ true)
  unfolding first_active lookup
  first_active_found [] a d e = cc
  first_active_found ((i, b) ∷ es) a d e = elim (Option-cases (plan_codec.unmarshal b)) [
    | inl n ↦ cc (rw (n, first_active) at e)
    | inr (c, u) ↦ elim (Bool-cases c.is_active) [
      | inl t ↦ (i, ground (arith, text_self i), ground arith)
      | inr t ↦
          let (k, q, x) = first_active_found es a d.1 (ground arith) in
          (k, ground (arith, eq_iff i k, d.0), x)
    ]
  ]

  -- GetActive returns a plan of the cache that is active.
  pub get_active_found :
      (s : cache.Store) (a : TestPlan)
      → get_active p s ≡ some a
      → (k : String) × (TestPlanCache.get p s k ≡ some a) × (a.is_active ≡ true)
  unfolding get_active Typed.fetch
  get_active_found s a e =
      let (k, q, x) = first_active_found (cache.items s) a (cache.items-Distinct s) e in
      (k, ap (λ o. bind_option o plan_codec.unmarshal) (sym (cache.lookup-items s k)) ∙ q, x)
