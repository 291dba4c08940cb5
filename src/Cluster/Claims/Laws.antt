-- ===== src/Cluster/Claims/Laws.antt =====
-- What RmPVC (src/common/k8stest/util_pvc.go) reports of the removal of a claim.
use mayastor_e2e.Prelude.{
  ℕ, zero, suc, ◌+◌, ◌≤◌, ◌<◌, ◌≡◌, refl, subst, String, Option, none, some, Outcome, ok, err,
  panic, Bool, true, false, arith, Bool-cases, text_cases, ◌⊎◌, inl, inr, ◌≢◌, ◌>>=◌,
}
use mayastor_e2e.Cluster.Claims.{
  Answer, found, nil, failed, is_pvc_deleted, is_pv_deleted, deleted_rounds, msv_rounds,
  ClaimObject, Removal, after_wait, remove_msv, wait_volume, remove_volume, remove_claim, rm_pvc,
}

after_wait-none :
    (complaint : String) (last : Bool × Option String) (next : Outcome (Option String))
    → after_wait complaint last next ≡ ok none
    → (last ≡ (true, none)) × (next ≡ ok none)
unfolding after_wait
after_wait-none complaint (deleted, some e) next h = cc h
after_wait-none complaint (true, none) next h = (refl, h)
after_wait-none complaint (false, none) next h = cc h

-- One of the first answers says that the object is deleted.
abbrev pub IsGone : (ℕ → Outcome (Bool × Option String)) → Type 0
IsGone answer = (i : ℕ) × (i < 360) × (answer i ≡ ok (true, none))

deleted_rounds-ok :
    (left n : ℕ) (answer : ℕ → Outcome (Bool × Option String)) (state last : Bool × Option String)
    → 1 ≤ left
    → deleted_rounds left n answer state ≡ ok last
    → (i : ℕ) × (i < n + left) × (answer i ≡ ok last)
unfolding deleted_rounds
deleted_rounds-ok zero n answer state last l h = absurd (omega arith)
deleted_rounds-ok (suc zero) n answer state last l h = go (answer n) refl
  where
    go :
        (o : Outcome (Bool × Option String))
        → answer n ≡ o
        → (i : ℕ) × (i < n + 1) × (answer i ≡ ok last)
    go (err e) q = ground (arith, q, h)
    go panic q = ground (arith, q, h)
    go (ok s) q = (n, omega arith, ground (arith, q, h, Bool-cases s.0))
deleted_rounds-ok (suc (suc left)) n answer state last l h =
    go (answer n) refl (λ s. deleted_rounds-ok (suc left) (suc n) answer s last (omega arith))
  where
    later :
        (i : ℕ) × (i < suc n + suc left) × (answer i ≡ ok last)
        → (i : ℕ) × (i < n + suc (suc left)) × (answer i ≡ ok last)
    later (i, a, b) = (i, omega arith, b)

    go :
        (o : Outcome (Bool × Option String))
        → answer n ≡ o
        → ((s : Bool × Option String)
            → deleted_rounds (suc left) (suc n) answer s ≡ ok last
            → (i : ℕ) × (i < suc n + suc left) × (answer i ≡ ok last))
        → (i : ℕ) × (i < n + suc (suc left)) × (answer i ≡ ok last)
    go (err e) q ih = ground (arith, q, h)
    go panic q ih = ground (arith, q, h)
    go (ok s) q ih = elim (Bool-cases s.0) [
      | inl r ↦ (n, omega arith, ground (arith, q, h, r))
      | inr r ↦ later (ih s (ground (arith, q, h, r)))
    ]

msv_rounds-true :
    (left n : ℕ) (answer : ℕ → Bool)
    → msv_rounds left n answer ≡ true
    → (i : ℕ) × (i < n + left) × (answer i ≡ true)
unfolding msv_rounds
msv_rounds-true zero n answer h = cc h
msv_rounds-true (suc left) n answer h =
    go (Bool-cases (answer n)) (msv_rounds-true left (suc n) answer)
  where
    go :
        ((answer n ≡ true) ⊎ (answer n ≡ false))
        → (msv_rounds left (suc n) answer ≡ true → (i : ℕ) × (i < suc n + left) × (answer i ≡ true))
        → (i : ℕ) × (i < n + suc left) × (answer i ≡ true)
    go (inl q) ih = (n, omega arith, q)
    go (inr q) ih = let (i, a, b) = ih (ground (arith, q, h)) in (i, omega arith, b)

-- The waits of RmPVC: what is joined by a loop and what follows it.
wait_then :
    (answer : ℕ → Outcome (Bool × Option String)) (start : Bool × Option String)
    (complaint : String) (next : Outcome (Option String))
    → (deleted_rounds 360 0 answer start >>= λ last. after_wait complaint last next) ≡ ok none
    → IsGone answer × (next ≡ ok none)
wait_then answer start complaint next h = go (deleted_rounds 360 0 answer start) refl h
  where
    go :
        (o : Outcome (Bool × Option String))
        → deleted_rounds 360 0 answer start ≡ o
        → (o >>= λ last. after_wait complaint last next) ≡ ok none
        → IsGone answer × (next ≡ ok none)
    go (err e) q t = cc t
    go panic q t = cc t
    go (ok last) q t =
        let (same, rest) = after_wait-none complaint last next t in
        let (i, l, a) = deleted_rounds-ok 360 0 answer start last (omega arith) q in
        ((i, l, subst (λ (r : Bool × Option String). answer i ≡ ok r) same a), rest)

remove_msv-none :
    (f : Removal) (claim : ClaimObject)
    → remove_msv f claim ≡ ok none
    → (i : ℕ) × (i < 360) × (f.msv_deleted i ≡ true)
unfolding remove_msv
remove_msv-none f claim h =
    msv_rounds-true 360 0 f.msv_deleted
      (ground (arith, h, Bool-cases (msv_rounds 360 0 f.msv_deleted)))

-- What the removal of a claim shows of its volumes: that of the cluster, where the claim has one, was
-- deleted, and so was that of the product.
abbrev pub IsRemoved : Removal → ClaimObject → Type 0
IsRemoved f claim =
    (claim.volume_name ≢ ""
      → IsGone (λ (n : ℕ). is_pv_deleted claim.volume_name (f.volume_phase n)))
    × ((i : ℕ) × (i < 360) × (f.msv_deleted i ≡ true))

wait_volume-none :
    (f : Removal) (claim : ClaimObject)
    → wait_volume f claim ≡ ok none
    → IsGone (λ (n : ℕ). is_pv_deleted claim.volume_name (f.volume_phase n))
      × (remove_msv f claim ≡ ok none)
unfolding wait_volume
wait_volume-none f claim h = wait_then _ _ _ _ h

remove_volume-none :
    (f : Removal) (claim : ClaimObject) → remove_volume f claim ≡ ok none → IsRemoved f claim
unfolding remove_volume
remove_volume-none f claim h = elim (text_cases claim.volume_name "") [
  | inl q ↦ (λ t. absurd (t q.1), remove_msv-none f claim (ground (arith, q.0, h)))
  | inr q ↦
      let w = wait_volume-none f claim (ground (arith, q.0, h)) in
      (λ t. w.0, remove_msv-none f claim w.1)
]

remove_claim-none :
    (name namespace : String) (f : Removal) (claim : ClaimObject)
    → remove_claim name namespace f claim ≡ ok none
    → IsGone (λ (n : ℕ). is_pvc_deleted name namespace (f.claim_phase n))
      × (remove_volume f claim ≡ ok none)
unfolding remove_claim
remove_claim-none name namespace f claim h = wait_then _ _ _ _ h

-- Where RmPVC reports success, the claim was there and its deletion was taken. Within 360 answers each,
-- the claim was deleted, the cluster's volume if the claim named one, and the product's volume.
pub rm_pvc-none :
    (is_not_found : String → Bool) (name namespace : String) (f : Removal)
    → rm_pvc is_not_found name namespace f ≡ ok none
    → (claim : ClaimObject) × (f.claim ≡ found claim)
      × (f.delete ≡ none)
      × IsGone (λ (n : ℕ). is_pvc_deleted name namespace (f.claim_phase n))
      × IsRemoved f claim
unfolding rm_pvc
rm_pvc-none is_not_found name namespace f h = go f.claim f.delete refl refl
  where
    go :
        (c : Answer ClaimObject) (d : Option String)
        → f.claim ≡ c
        → f.delete ≡ d
        → (claim : ClaimObject) × (f.claim ≡ found claim)
          × (f.delete ≡ none)
          × IsGone (λ (n : ℕ). is_pvc_deleted name namespace (f.claim_phase n))
          × IsRemoved f claim
    go nil d q r = ground (arith, q, h)
    go (failed e) d q r = ground (arith, q, h, Bool-cases (is_not_found e))
    go (found claim) (some e) q r = ground (arith, q, r, h)
    go (found claim) none q r =
        let w = remove_claim-none name namespace f claim (ground (arith, q, r, h)) in
        (claim, q, r, w.0, remove_volume-none f claim w.1)
