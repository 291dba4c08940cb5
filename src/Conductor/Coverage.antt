-- ===== src/Conductor/Coverage.antt =====
-- Which pods AddNamespaceWorkloads lists with the workload monitor
-- (test_conductor/tc/workload_monitor_lib.go).
use mathlib.Core.List.{Memᴰ}
use mayastor_e2e.Prelude.{
  Option, none, some, inl, inr, arith, subst, text_cases, text_eq, ◌==◌, ℕ, ◌≡◌, refl, sym, ap, ◌∙◌,
  String, List, [], ◌∷◌, ◌++◌, Outcome, ok, err, panic, Bool, true, false, length,
}
use mayastor_e2e.Kubernetes.{Pod, listed, get_pods_in_namespace}
use mayastor_e2e.Workload.{Violation, Workload}
use mayastor_e2e.Conductor.{Call, put_call, is_excluded, put_pods, add_namespace_workloads}

-- A PUT for each pod whose label is not excluded.
pub calls_for : String → List Violation → List String → List Pod → List Call
calls_for rid vs exclusions [] = []
calls_for rid vs exclusions (pod ∷ pods) = elim (is_excluded pod.app_label exclusions) [
  | true ↦ calls_for rid vs exclusions pods
  | false ↦ put_call rid pod.uid vs ∷ calls_for rid vs exclusions pods
]

append_snoc : (cs ds : List Call) (c : Call) → (cs ++ (c ∷ [])) ++ ds ≡ cs ++ (c ∷ ds)
append_snoc [] ds c = refl
append_snoc (d ∷ cs) ds c = ap (λ l. d ∷ l) (append_snoc cs ds c)

append_nil : (cs : List Call) → cs ++ [] ≡ cs
append_nil [] = refl
append_nil (c ∷ cs) = ap (λ l. c ∷ l) (append_nil cs)

put_pods_all :
    (answers : ℕ → Outcome Workload) (rid : String) (vs : List Violation) (exclusions : List String)
    (pods : List Pod) (calls : List Call)
    → ((n : ℕ) → (wl : Workload) × (answers n ≡ ok wl))
    → put_pods answers rid vs exclusions pods calls
      ≡ (ok tt, calls ++ calls_for rid vs exclusions pods)
unfolding put_pods calls_for
put_pods_all answers rid vs exclusions [] calls h = ap (λ l. (ok tt, l)) (sym (append_nil calls))
put_pods_all answers rid vs exclusions (pod ∷ pods) calls h =
    go (is_excluded pod.app_label exclusions) refl
      (λ cs. put_pods_all answers rid vs exclusions pods cs h)
  where
    go :
        (b : Bool)
        → is_excluded pod.app_label exclusions ≡ b
        → ((cs : List Call)
            → put_pods answers rid vs exclusions pods cs
              ≡ (ok tt, cs ++ calls_for rid vs exclusions pods))
        → put_pods answers rid vs exclusions (pod ∷ pods) calls
          ≡ (ok tt, calls ++ calls_for rid vs exclusions (pod ∷ pods))
    go true e rest = rw (put_pods, calls_for, e) (rest calls)
    go false e rest =
        let c = put_call rid pod.uid vs in
        rw (put_pods, calls_for, e, (h (length calls)).1)
          (rest (calls ++ (c ∷ []))
            ∙ ap (λ l. (ok tt, l)) (append_snoc calls (calls_for rid vs exclusions pods) c))

-- The calls that are due for a list of pods, in its order: none for a pod whose label is one of those
-- excluded, and one for any other.
pub data Due (rid : String) (vs : List Violation) (exclusions : List String)
    : List Pod → List Call → Type 0 where
  ended : Due rid vs exclusions [] []
  spared :
      (pod : Pod) (pods : List Pod) (calls : List Call) (label : String)
      → pod.app_label ≡ some label
      → Memᴰ label exclusions
      → Due rid vs exclusions pods calls
      → Due rid vs exclusions (pod ∷ pods) calls
  put :
      (pod : Pod) (pods : List Pod) (calls : List Call)
      → ((label : String) → pod.app_label ≡ some label → ¬ Memᴰ label exclusions)
      → Due rid vs exclusions pods calls
      → Due rid vs exclusions (pod ∷ pods) (put_call rid pod.uid vs ∷ calls)

some-injective : {a b : String} → some a ≡ some b → a ≡ b
some-injective h = cc h

is_excluded-true :
    (app_label : Option String) (exclusions : List String)
    → is_excluded app_label exclusions ≡ true
    → (label : String) × (app_label ≡ some label) × Memᴰ label exclusions
unfolding is_excluded
is_excluded-true none exclusions h = cc h
is_excluded-true (some v) [] h = cc h
is_excluded-true (some v) (x ∷ xs) h = elim (text_cases v x) [
  | inl (_, q) ↦ (v, refl, Memᴰ.head q)
  | inr (q, _) ↦ (v, refl, Memᴰ.tail (there (is_excluded-true (some v) xs (ground (arith, q, h)))))
]
  where
    there : (label : String) × (some v ≡ some label) × Memᴰ label xs → Memᴰ v xs
    there (label, q, m) = subst (λ (t : String). Memᴰ t xs) (sym (some-injective q)) m

is_excluded-false :
    (v : String) (exclusions : List String)
    → is_excluded (some v) exclusions ≡ false
    → ¬ Memᴰ v exclusions
unfolding is_excluded
is_excluded-false v [] h m = elim m [ ]
is_excluded-false v (x ∷ xs) h (Memᴰ.head q) = ground (arith, text_eq v x q, h)
is_excluded-false v (x ∷ xs) h (Memᴰ.tail m) = is_excluded-false v xs (go (v == x) refl) m
  where
    go : (b : Bool) → (v == x) ≡ b → is_excluded (some v) xs ≡ false
    go true e = ground (arith, e, h)
    go false e = ground (arith, e, h)

calls_for-Due :
    (rid : String) (vs : List Violation) (exclusions : List String) (pods : List Pod)
    → Due rid vs exclusions pods (calls_for rid vs exclusions pods)
unfolding calls_for
calls_for-Due rid vs exclusions [] = ended
calls_for-Due rid vs exclusions (pod ∷ pods) =
    go (is_excluded pod.app_label exclusions) refl (calls_for-Due rid vs exclusions pods)
  where
    go :
        (b : Bool)
        → is_excluded pod.app_label exclusions ≡ b
        → Due rid vs exclusions pods (calls_for rid vs exclusions pods)
        → Due rid vs exclusions (pod ∷ pods) (calls_for rid vs exclusions (pod ∷ pods))
    go true e rest =
        let (label, q, m) = is_excluded-true pod.app_label exclusions e in
        rw (calls_for, e) (spared pod pods (calls_for rid vs exclusions pods) label q m rest)
    go false e rest =
        rw (calls_for, e)
          (put pod pods (calls_for rid vs exclusions pods)
            (λ label q.
              is_excluded-false label exclusions
                (subst (λ (o : Option String). is_excluded o exclusions ≡ false) q e))
            rest)

-- If the monitor takes every workload, AddNamespaceWorkloads returns no error and has put each listed
-- pod whose label is not one of those excluded, and no other, once and in the order of the list.
pub add_namespace_workloads_all :
    (answers : ℕ → Outcome Workload) (rid namespace : String) (vs : List Violation)
    (exclusions : List String) (pods : List Pod)
    → ((n : ℕ) → (wl : Workload) × (answers n ≡ ok wl))
    → (calls : List Call) × Due rid vs exclusions pods calls
      × (add_namespace_workloads (listed pods) answers rid vs namespace exclusions []
          ≡ (ok tt, calls))
unfolding add_namespace_workloads get_pods_in_namespace
add_namespace_workloads_all answers rid namespace vs exclusions pods h = (
  calls_for rid vs exclusions pods,
  calls_for-Due rid vs exclusions pods,
  put_pods_all answers rid vs exclusions pods [] h,
)

-- If the monitor fails the PUT of the first listed pod, whose label is not excluded, the
-- conductor panics after that one call.
pub add_namespace_workloads_panics :
    (answers : ℕ → Outcome Workload) (rid namespace e : String) (vs : List Violation)
    (exclusions : List String) (pod : Pod) (pods : List Pod)
    → is_excluded pod.app_label exclusions ≡ false
    → answers 0 ≡ err e
    → add_namespace_workloads (listed (pod ∷ pods)) answers rid vs namespace exclusions []
      ≡ (panic, put_call rid pod.uid vs ∷ [])
unfolding add_namespace_workloads get_pods_in_namespace put_pods
add_namespace_workloads_panics answers rid namespace e vs exclusions pod pods n h =
    rw (add_namespace_workloads, put_pods, n, h) refl
