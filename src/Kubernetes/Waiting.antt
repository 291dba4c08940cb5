-- ===== src/Kubernetes/Waiting.antt =====
-- WaitForPodReady (src/tools/extended-test-framework/common/k8sclient/lib_pod.go): which pod it
-- returns, and when it gives up.
use mathlib.Core.List.{Memᴰ}
use mayastor_e2e.Prelude.{
  ℕ, zero, suc, ◌+◌, ◌<◌, ◌≡◌, refl, ap, ◌∙◌, String, ◌==◌, eq_iff, ◌&&◌, List, [], ◌∷◌, none, some,
  ok, arith, true, Bool-cases, Option-cases, inl, inr, sym, subst,
}
use mayastor_e2e.Kubernetes.{
  Pod, is_running, Listing, listed, failed, find_ready, wait_rounds, wait_for_pod_ready,
}

-- A running pod with the name, in the list.
abbrev pub IsReady : String → List Pod → Pod → Type 0
IsReady name pods pod = Memᴰ pod pods × (pod.name ≡ name) × (is_running pod.phase ≡ true)

find_ready_sound :
    (name : String) (pods : List Pod) (pod : Pod)
    → find_ready name pods ≡ some pod
    → IsReady name pods pod
unfolding find_ready
find_ready_sound name [] pod e = cc e
find_ready_sound name (q ∷ pods) pod e = elim (Bool-cases (name == q.name && is_running q.phase)) [
  | inl t ↦
      let same : some q ≡ some pod = (sym (rw t refl) ∙ e) in
      let p : q ≡ pod = cc same in
      let ready : (pod.name ≡ name) × (is_running pod.phase ≡ true) =
        subst (λ (x : Pod). (x.name ≡ name) × (is_running x.phase ≡ true)) p
          (ground (arith, t, eq_iff name q.name)) in
      (Memᴰ.head (sym p), ready.0, ready.1)
  | inr t ↦
      let (m, a, b) = find_ready_sound name pods pod (ground (arith, t, e)) in (Memᴰ.tail m, a, b)
]

wait_rounds_sound :
    (r i : ℕ) (lists : ℕ → Listing) (name : String) (pod : Pod)
    → wait_rounds r i lists name ≡ ok pod
    → (k : ℕ) × (pods : List Pod) × (k < r) × (lists (i + k) ≡ listed pods) × IsReady name pods pod
unfolding wait_rounds
wait_rounds_sound zero i lists name pod e = cc e
wait_rounds_sound (suc r) i lists name pod e =
    go (lists i) refl (λ pods n q. wait_rounds_sound r (suc i) lists name pod q)
  where
    Found : ℕ → Type 0
    Found b =
        (k : ℕ) × (pods : List Pod) × (k < b)
        × (lists (i + k) ≡ listed pods)
        × IsReady name pods pod

    go :
        (l : Listing)
        → lists i ≡ l
        → ((pods : List Pod)
            → find_ready name pods ≡ none
            → wait_rounds r (suc i) lists name ≡ ok pod
            → (k : ℕ) × (pods : List Pod) × (k < r)
              × (lists (suc i + k) ≡ listed pods)
              × IsReady name pods pod)
        → Found (suc r)
    go (failed x) q rest = absurd (ground (arith, q, e))
    go (listed pods) q rest = elim (Option-cases (find_ready name pods)) [
      | inl n ↦
          let (k, ps, lt, at, h) = rest pods n (ground (arith, q, e, n)) in
          (suc k, ps, omega arith, ap lists (omega arith) ∙ at, h)
      | inr (a, f) ↦
          let same : find_ready name pods ≡ some pod = ground (arith, q, e, f) in
          (0, pods, omega arith, ap lists (omega arith) ∙ q, find_ready_sound name pods pod same)
    ]

-- A pod that WaitForPodReady returns stood in one of its first twelve lists, running and with the
-- name.
pub wait_for_pod_ready_sound :
    (lists : ℕ → Listing) (name : String) (pod : Pod)
    → wait_for_pod_ready lists name ≡ ok pod
    → (k : ℕ) × (pods : List Pod) × (k < 12) × (lists k ≡ listed pods) × IsReady name pods pod
unfolding wait_for_pod_ready
wait_for_pod_ready_sound lists name pod e =
    let (k, pods, lt, at, h) = wait_rounds_sound 12 0 lists name pod e in
    (k, pods, lt, ap lists (omega arith) ∙ at, h)
