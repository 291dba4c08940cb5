-- ===== src/Cluster/Cleanup/Laws.antt =====
-- What the results of the sweep (src/common/k8stest/util_cleanup.go) say of the cluster, and which
-- failures they hide.
use mayastor_e2e.Prelude.{
  ℕ, zero, suc, ◌+◌, ◌≤◌, ◌<◌, ◌≡◌, refl, subst, String, List, [], ◌∷◌, none, Outcome, ok, err,
  Bool, true, false, arith, if◌then◌else◌, All, pos,
}
use mayastor_e2e.Types.{ErrorAccumulator, accumulate, accumulate_empty}
use mayastor_e2e.Cluster.Cleanup.{
  Claim, claims_of, count_claims, wait_gone, delete_all_pvcs, PoolGet, PoolUpdate, pool_found,
  updated, conflict, finalizer_rounds, delete_pool_finalizer, pool_rounds, delete_all_pools,
  CleanUpFacts, is_swept, is_test_namespace, sweep_errors, removal_errors, known, error_of,
  is_empty, clean_up,
}

add_zero : (n : ℕ) → n + 0 ≡ n
add_zero n = omega arith

finalizer_rounds_first :
    (k left n : ℕ) (f : String) (fs : List String) (answer : ℕ → PoolGet × PoolUpdate)
    → k < left
    → ((i : ℕ) → i < k → answer (n + i) ≡ (pool_found (f ∷ fs), conflict))
    → answer (n + k) ≡ (pool_found (f ∷ fs), updated)
    → finalizer_rounds left n answer ≡ ok true
unfolding finalizer_rounds
finalizer_rounds_first k zero n f fs answer lt conflicts last = absurd (omega arith)
finalizer_rounds_first zero (suc left) n f fs answer lt conflicts last =
    let q = subst (λ (j : ℕ). answer j ≡ (pool_found (f ∷ fs), updated)) (add_zero n) last in
    rw (finalizer_rounds, q, q) refl
finalizer_rounds_first (suc k) (suc left) n f fs answer lt conflicts last =
    let q =
      subst (λ (j : ℕ). answer j ≡ (pool_found (f ∷ fs), conflict)) (add_zero n)
        (conflicts 0 (omega arith)) in
    rw (finalizer_rounds, q, q)
      (finalizer_rounds_first k left (suc n) f fs answer (omega arith)
        (λ (i : ℕ) (l : i < k).
          subst (λ (j : ℕ). answer j ≡ (pool_found (f ∷ fs), conflict)) (omega arith)
            (conflicts (suc i) (omega arith)))
        (subst (λ (j : ℕ). answer j ≡ (pool_found (f ∷ fs), updated)) (omega arith) last))

-- Where fewer than six updates of a pool that keeps its finalizers end in a conflict and the next one
-- succeeds, deletePoolFinalizer reports that the finalizers are removed.
pub delete_pool_finalizer_retries :
    (k : ℕ) (f : String) (fs : List String) (answer : ℕ → PoolGet × PoolUpdate)
    → k < 6
    → ((i : ℕ) → i < k → answer i ≡ (pool_found (f ∷ fs), conflict))
    → answer k ≡ (pool_found (f ∷ fs), updated)
    → delete_pool_finalizer answer ≡ ok true
unfolding delete_pool_finalizer
delete_pool_finalizer_retries k f fs answer lt conflicts last =
    finalizer_rounds_first k 6 0 f fs answer lt
      (λ (i : ℕ) (l : i < k).
        subst (λ (j : ℕ). answer j ≡ (pool_found (f ∷ fs), conflict)) (omega arith) (conflicts i l))
      (subst (λ (j : ℕ). answer j ≡ (pool_found (f ∷ fs), updated)) (omega arith) last)

wait_gone_blind {ℓ} :
    {A : Type ℓ} (count : List A → Outcome ℕ) (left n : ℕ) (listing : ℕ → Outcome (List A))
    → ((i : ℕ) → n ≤ i → (e : String) × (listing i ≡ err e))
    → wait_gone count left n listing 0 ≡ ok 0
unfolding wait_gone
wait_gone_blind count zero n listing fails = refl
wait_gone_blind count (suc left) n listing fails =
    let (e, q) = fails n (omega arith) in
    rw (wait_gone, q)
      (wait_gone_blind count left (suc n) listing
        (λ (i : ℕ) (l : suc n ≤ i). fails i (omega arith)))

-- Where the claims are listed once and every later list call fails, DeleteAllPvcs reports that none
-- are left, and no error, however many there are.
pub delete_all_pvcs_blind :
    (classes : List String) (listing : ℕ → Outcome (List Claim)) (l : List Claim)
    (names : List String)
    → listing 0 ≡ ok l
    → claims_of classes l ≡ ok names
    → ((i : ℕ) → 1 ≤ i → (e : String) × (listing i ≡ err e))
    → delete_all_pvcs (ok classes) listing
      ≡ ok (record { deleted = names; left = pos 0; error = none })
unfolding delete_all_pvcs
delete_all_pvcs_blind classes listing l names first found fails =
    rw (delete_all_pvcs, first, found, wait_gone_blind (count_claims classes) 120 1 listing fails)
      refl

-- Where the pools cannot be listed, DeleteAllPools deletes none and reports that none are left.
pub delete_all_pools_blind :
    (listing : ℕ → Outcome (List String)) (first second : String)
    → listing 0 ≡ err first
    → listing 1 ≡ err second
    → delete_all_pools listing ≡ ([], true)
unfolding delete_all_pools pool_rounds
delete_all_pools_blind listing first second a b = rw (delete_all_pools, a, stops 119) refl
  where
    stops : (left : ℕ) → pool_rounds (suc left) 1 listing 0 ≡ 0
    stops left = rw (pool_rounds, b) refl

-- Every namespace that CleanUp sweeps has been swept with no error.
abbrev pub IsSwept : CleanUpFacts → String → Type 0
IsSwept f ns =
    is_swept ns ≡ true → ((f.deployments ns ≡ none) × (f.pods ns ≡ none) × (f.pvcs ns ≡ none))

abbrev pub IsRemoved : CleanUpFacts → String → Type 0
IsRemoved f ns = is_test_namespace ns ≡ true → f.removal ns ≡ none

sweep_errors_empty :
    (f : CleanUpFacts) (l : List String) (errs : ErrorAccumulator)
    → sweep_errors f l errs ≡ []
    → (errs ≡ []) × All (λ (ns : String). IsSwept f ns) l
unfolding sweep_errors
sweep_errors_empty f [] errs h = (h, tt)
sweep_errors_empty f (ns ∷ l) errs h =
    let r = sweep_errors_empty f l _ h in let q = split (is_swept ns) refl r.0 in (q.0, (q.1, r.1))
  where
    split :
        (b : Bool)
        → is_swept ns ≡ b
        → (if b
            then accumulate
                (accumulate (accumulate errs (f.deployments ns)) (f.pods ns))
                (f.pvcs ns)
            else errs)
          ≡ []
        → (errs ≡ []) × IsSwept f ns
    split true e g =
        let c = accumulate_empty _ (f.pvcs ns) g in
        let p = accumulate_empty _ (f.pods ns) c.0 in
        let d = accumulate_empty errs (f.deployments ns) p.0 in (d.0, λ t. (d.1, p.1, c.1))
    split false e g = (g, λ t. cc (e, t))

removal_errors_empty :
    (f : CleanUpFacts) (l : List String) (errs : ErrorAccumulator)
    → removal_errors f l errs ≡ []
    → (errs ≡ []) × All (λ (ns : String). IsRemoved f ns) l
unfolding removal_errors
removal_errors_empty f [] errs h = (h, tt)
removal_errors_empty f (ns ∷ l) errs h =
    let r = removal_errors_empty f l _ h in
    let q = split (is_test_namespace ns) refl r.0 in (q.0, (q.1, r.1))
  where
    split :
        (b : Bool)
        → is_test_namespace ns ≡ b
        → (if b then accumulate errs (f.removal ns) else errs) ≡ []
        → (errs ≡ []) × IsRemoved f ns
    split true e g = let d = accumulate_empty errs (f.removal ns) g in (d.0, λ t. d.1)
    split false e g = (g, λ t. cc (e, t))

is_empty-true : (errs : ErrorAccumulator) → is_empty errs ≡ true → errs ≡ []
is_empty-true [] h = refl
is_empty-true (e ∷ es) h = cc h

-- Where CleanUp reports success, the namespaces were listed; every one of the tests and the default one
-- was swept with no error; every one of the tests was removed; and the volumes, the storage classes and
-- the labels of the nodes were dealt with, with no error.
pub clean_up_lem :
    (f : CleanUpFacts)
    → clean_up f ≡ true
    → ((error_of f.namespaces ≡ none)
        × All (λ (ns : String). IsSwept f ns) (known f.namespaces)
        × All (λ (ns : String). IsRemoved f ns) (known f.namespaces)
        × (f.pvs ≡ none)
        × (f.msvs ≡ none)
        × (f.storage_classes ≡ none)
        × (f.node_labels ≡ none))
unfolding clean_up
clean_up_lem f h =
    let labels = accumulate_empty _ f.node_labels (is_empty-true _ h) in
    let removed = removal_errors_empty f (known f.namespaces) _ labels.0 in
    let classes = accumulate_empty _ f.storage_classes removed.0 in
    let msvs = accumulate_empty _ f.msvs classes.0 in
    let pvs = accumulate_empty _ f.pvs msvs.0 in
    let swept = sweep_errors_empty f (known f.namespaces) _ pvs.0 in
    (
      (accumulate_empty [] (error_of f.namespaces) swept.0).1,
      swept.1,
      removed.1,
      pvs.1,
      msvs.1,
      classes.1,
      labels.1,
    )
