-- ===== src/Cluster/Deployments/Laws.antt =====
-- What the waits and the updates of src/common/k8stest/util.go report, for every course of answers.
use mayastor_e2e.Prelude.{
  ℕ, zero, suc, ◌+◌, ◌≤◌, ◌<◌, ◌≡◌, refl, subst, String, List, [], ◌∷◌, Option, none, some, Outcome,
  ok, Bool, true, arith, Bool-cases, text_eq, inl, inr,
}
use mayastor_e2e.Kubernetes.{PodPhase}
use mayastor_e2e.Cluster.Deployments.{
  Attempt, update_failed, replication_rounds, set_deployment_replication, Listing, round_ready,
  ready_rounds, status_rounds, VolumeAttachment, delete_attachments, delete_volume_attachments,
}

add_zero : (n : ℕ) → n + 0 ≡ n
add_zero n = omega arith

add_suc : (n m : ℕ) → n + suc m ≡ suc n + m
add_suc n m = omega arith

replication_rounds_fails :
    (kind name namespace : String) (left n : ℕ) (attempt : ℕ → Attempt)
    → ((i : ℕ) → (e : String) × (attempt i ≡ update_failed e))
    → replication_rounds kind name namespace left n attempt ≡ (ok tt, n + left)
unfolding replication_rounds
replication_rounds_fails kind name namespace zero n attempt fails = rw (add_zero n) refl
replication_rounds_fails kind name namespace (suc left) n attempt fails =
    let (e, q) = fails n in
    rw (replication_rounds, q, add_suc n left)
      (replication_rounds_fails kind name namespace left (suc n) attempt fails)

-- Where every update of the deployment fails, SetDeploymentReplication tries ten of them and reports
-- success.
pub set_deployment_replication_fails :
    (name namespace : String) (attempt : ℕ → Attempt)
    → ((i : ℕ) → (e : String) × (attempt i ≡ update_failed e))
    → set_deployment_replication name namespace attempt ≡ (ok tt, 10)
unfolding set_deployment_replication
set_deployment_replication_fails name namespace attempt fails =
    replication_rounds_fails "deployment" name namespace 10 0 attempt fails

-- ControlPlaneReady says that the control plane is ready only where, in one of its rounds, all the list
-- calls succeeded and everything listed that is not of the data plane was ready.
pub ready_rounds_sound :
    (skipped : List String) (left n : ℕ) (answer : ℕ → Option Listing)
    → ready_rounds skipped left n answer ≡ true
    → (i : ℕ) × (l : Listing) × (n ≤ i)
      × (i < n + left)
      × (answer i ≡ some l)
      × (round_ready skipped l ≡ true)
unfolding ready_rounds
ready_rounds_sound skipped zero n answer h = cc h
ready_rounds_sound skipped (suc left) n answer h =
    go (answer n) refl h (ready_rounds_sound skipped left (suc n) answer)
  where
    later :
        (i : ℕ) × (l : Listing) × (suc n ≤ i)
          × (i < suc n + left)
          × (answer i ≡ some l)
          × (round_ready skipped l ≡ true)
        → (i : ℕ) × (l : Listing) × (n ≤ i)
          × (i < n + suc left)
          × (answer i ≡ some l)
          × (round_ready skipped l ≡ true)
    later (i, l, a, b, c, d) = (i, l, omega arith, omega arith, c, d)

    go :
        (o : Option Listing)
        → answer n ≡ o
        → ready_rounds skipped (suc left) n answer ≡ true
        → (ready_rounds skipped left (suc n) answer ≡ true
            → (i : ℕ) × (l : Listing) × (suc n ≤ i)
              × (i < suc n + left)
              × (answer i ≡ some l)
              × (round_ready skipped l ≡ true))
        → (i : ℕ) × (l : Listing) × (n ≤ i)
          × (i < n + suc left)
          × (answer i ≡ some l)
          × (round_ready skipped l ≡ true)
    go none q t ih = later (ih (ground (arith, q, t)))
    go (some l) q t ih = elim (Bool-cases (round_ready skipped l)) [
      | inl r ↦ (n, l, omega arith, omega arith, q, r)
      | inr r ↦ later (ih (ground (arith, q, t, r)))
    ]

-- Where the pod is first running after `k` rounds in which its status is known, fewer than the seconds
-- allowed, WaitForPodRunningOnNode succeeds.
pub status_rounds_first :
    (wanted : Option PodPhase → Bool) (give_up : String) (failing : String → String) (k left n : ℕ)
    (answer : ℕ → Outcome (Option PodPhase)) (s : Option PodPhase)
    → k < left
    → ((i : ℕ) → i < k → (t : Option PodPhase) × (answer (n + i) ≡ ok t))
    → answer (n + k) ≡ ok s
    → wanted s ≡ true
    → status_rounds wanted give_up failing left n answer ≡ ok tt
unfolding status_rounds
status_rounds_first wanted give_up failing k zero n answer s lt known last running =
    absurd (omega arith)
status_rounds_first wanted give_up failing zero (suc left) n answer s lt known last running =
    let q = subst (λ (j : ℕ). answer j ≡ ok s) (add_zero n) last in
    rw (status_rounds, q, running) refl
status_rounds_first wanted give_up failing (suc k) (suc left) n answer s lt known last running =
    let (t, q) = known 0 (omega arith) in
    let later =
      status_rounds_first wanted give_up failing k left (suc n) answer s (omega arith)
        (λ (i : ℕ) (l : i < k).
          subst (λ (j : ℕ). (u : Option PodPhase) × (answer j ≡ ok u)) (omega arith)
            (known (suc i) (omega arith)))
        (subst (λ (j : ℕ). answer j ≡ ok s) (omega arith) last) running in
    ground (arith, later, Bool-cases (wanted t), subst (λ (j : ℕ). answer j ≡ ok t) (add_zero n) q)

-- DeleteVolumeAttachments reports no error whenever the attachments can be listed, whichever of the
-- deletions fail; and where the first deletion fails, it makes no other.
pub delete_volume_attachments_silent :
    (delete : String → Option String) (node e : String) (a : VolumeAttachment)
    (l : List VolumeAttachment)
    → a.node ≡ node
    → delete a.name ≡ some e
    → delete_volume_attachments delete node (ok (a ∷ l)) ≡ (a.name ∷ [], none)
unfolding delete_volume_attachments delete_attachments
delete_volume_attachments_silent delete node e a l here fails =
    ground (arith, text_eq a.node node here)
