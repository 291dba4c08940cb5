-- ===== src/Cluster/Replicas/Laws.antt =====
-- What ExcludeNexusReplica (src/common/k8stest/util_replica.go) reports.
use mathlib.Core.List.{Memᴰ}
use mayastor_e2e.Prelude.{
  ◌≢◌, All, text_differs, ℕ, zero, suc, ◌+◌, ◌≤◌, ◌<◌, ◌≡◌, refl, subst, String, ◌==◌, List, [],
  ◌∷◌, Option, none, some, Outcome, ok, err, panic, Bool, true, false, arith, Bool-cases,
  Option-cases, text_cases, inl, inr,
}
use mayastor_e2e.Types.{Replica}
use mayastor_e2e.Grpc.Nodes.{MayastorNexus}
use mayastor_e2e.Cluster.Replicas.Children.{
  nexus_of-some, IsOnlyLocal, local_child_only, has_uri-false,
}
use mayastor_e2e.Cluster.Replicas.{
  local_child, nexus_of, has_uri, gone_rounds, state_rounds, wait_excluded, exclude_nexus_replica,
}

gone_rounds-false :
    (child : String) (left n : ℕ) (answer : ℕ → Outcome (List Replica)) (found : Bool)
    → (found ≡ false → 1 ≤ left)
    → gone_rounds child left n answer found ≡ ok false
    → (i : ℕ) × (rs : List Replica) × (i < n + left)
      × (answer i ≡ ok rs)
      × (has_uri child rs ≡ false)
unfolding gone_rounds
gone_rounds-false child zero n answer true rounds h = cc h
gone_rounds-false child zero n answer false rounds h = let l = rounds refl in absurd (omega arith)
gone_rounds-false child (suc left) n answer found rounds h =
    go (answer n) refl h (gone_rounds-false child left (suc n) answer true (λ q. cc q))
  where
    later :
        (i : ℕ) × (rs : List Replica) × (i < suc n + left)
          × (answer i ≡ ok rs)
          × (has_uri child rs ≡ false)
        → (i : ℕ) × (rs : List Replica) × (i < n + suc left)
          × (answer i ≡ ok rs)
          × (has_uri child rs ≡ false)
    later (i, rs, a, b, c) = (i, rs, omega arith, b, c)

    go :
        (o : Outcome (List Replica))
        → answer n ≡ o
        → gone_rounds child (suc left) n answer found ≡ ok false
        → (gone_rounds child left (suc n) answer true ≡ ok false
            → (i : ℕ) × (rs : List Replica) × (i < suc n + left)
              × (answer i ≡ ok rs)
              × (has_uri child rs ≡ false))
        → (i : ℕ) × (rs : List Replica) × (i < n + suc left)
          × (answer i ≡ ok rs)
          × (has_uri child rs ≡ false)
    go (err e) q t ih = ground (arith, q, t)
    go panic q t ih = ground (arith, q, t)
    go (ok rs) q t ih = elim (Bool-cases (has_uri child rs)) [
      | inl r ↦ later (ih (ground (arith, q, t, r)))
      | inr r ↦ (n, rs, omega arith, q, r)
    ]

state_rounds-ok :
    (healthy : String) (left n : ℕ) (answer : ℕ → Outcome String) (state last : String)
    → 1 ≤ left
    → state_rounds healthy left n answer state ≡ ok last
    → (i : ℕ) × (i < n + left) × (answer i ≡ ok last)
unfolding state_rounds
state_rounds-ok healthy zero n answer state last l h = absurd (omega arith)
state_rounds-ok healthy (suc zero) n answer state last l h = go (answer n) refl
  where
    go : (o : Outcome String) → answer n ≡ o → (i : ℕ) × (i < n + 1) × (answer i ≡ ok last)
    go (err e) q = ground (arith, q, h)
    go panic q = ground (arith, q, h)
    go (ok s) q = (n, omega arith, ground (arith, q, h, Bool-cases (s == healthy)))
state_rounds-ok healthy (suc (suc left)) n answer state last l h =
    go (answer n) refl (λ s. state_rounds-ok healthy (suc left) (suc n) answer s last (omega arith))
  where
    later :
        (i : ℕ) × (i < suc n + suc left) × (answer i ≡ ok last)
        → (i : ℕ) × (i < n + suc (suc left)) × (answer i ≡ ok last)
    later (i, a, b) = (i, omega arith, b)

    go :
        (o : Outcome String)
        → answer n ≡ o
        → ((s : String)
            → state_rounds healthy (suc left) (suc n) answer s ≡ ok last
            → (i : ℕ) × (i < suc n + suc left) × (answer i ≡ ok last))
        → (i : ℕ) × (i < n + suc (suc left)) × (answer i ≡ ok last)
    go (err e) q ih = ground (arith, q, h)
    go panic q ih = ground (arith, q, h)
    go (ok s) q ih = elim (Bool-cases (s == healthy)) [
      | inl r ↦ (n, omega arith, ground (arith, q, h, r))
      | inr r ↦ later (ih s (ground (arith, q, h, r)))
    ]

-- What a move shows: within 23 answers each, the replica was not listed and the volume was healthy.
abbrev pub IsExcluded :
    String → String → (ℕ → Outcome (List Replica)) → (ℕ → Outcome String) → Type 0
IsExcluded healthy child replicas states =
    ((i : ℕ) × (rs : List Replica) × (i < 23) × (replicas i ≡ ok rs) × (has_uri child rs ≡ false))
    × ((j : ℕ) × (j < 23) × (states j ≡ ok healthy))

wait_excluded-none :
    (healthy child : String) (replicas : ℕ → Outcome (List Replica)) (states : ℕ → Outcome String)
    → wait_excluded healthy child replicas states ≡ ok (record { excluded = true; error = none })
    → IsExcluded healthy child replicas states
unfolding wait_excluded
wait_excluded-none healthy child replicas states h =
    go (gone_rounds child 23 0 replicas false) (state_rounds healthy 23 0 states "") refl refl
  where
    go :
        (g : Outcome Bool) (s : Outcome String)
        → gone_rounds child 23 0 replicas false ≡ g
        → state_rounds healthy 23 0 states "" ≡ s
        → IsExcluded healthy child replicas states
    go (err e) s a b = ground (arith, a, h)
    go panic s a b = ground (arith, a, h)
    go (ok true) s a b = ground (arith, a, h)
    go (ok false) (err e) a b = ground (arith, a, b, h)
    go (ok false) panic a b = ground (arith, a, b, h)
    go (ok false) (ok s) a b = elim (text_cases s healthy) [
      | inr r ↦ ground (arith, a, b, h, r.0)
      | inl r ↦
          let gone = gone_rounds-false child 23 0 replicas false (λ t. omega arith) a in
          let (j, l, q) = state_rounds-ok healthy 23 0 states "" s (omega arith) b in
          (gone, (j, l, subst (λ (u : String). states j ≡ ok u) r.1 q))
    ]

-- What a move shows: within 23 answers each, no replica of the volume was that one, and the volume was
-- healthy.
abbrev pub IsMoved : String → String → (ℕ → Outcome (List Replica)) → (ℕ → Outcome String) → Type 0
IsMoved healthy child replicas states =
    ((i : ℕ) × (rs : List Replica) × (i < 23)
      × (replicas i ≡ ok rs)
      × All (λ (r : Replica). r.uri ≢ child) rs)
    × ((j : ℕ) × (j < 23) × (states j ≡ ok healthy))

-- Where ExcludeNexusReplica reports that it has moved a replica, and no error, a nexus with the uuid was
-- listed, just one of its children was local, and that one was faulted; within 23 answers each it was
-- no longer among the replicas of the volume, and the volume was healthy.
pub exclude_nexus_replica-none :
    (healthy uuid : String) (can_connect : Bool) (listed : Outcome (List MayastorNexus))
    (fault : String → Option String) (replicas : ℕ → Outcome (List Replica))
    (states : ℕ → Outcome String)
    → exclude_nexus_replica healthy can_connect listed uuid fault replicas states
      ≡ ok (record { excluded = true; error = none })
    → (nexuses : List MayastorNexus) × (nx : MayastorNexus) × (child : String) × (listed
        ≡ ok nexuses)
      × Memᴰ nx nexuses
      × (nx.uuid ≡ uuid)
      × IsOnlyLocal child nx.children
      × (fault child ≡ none)
      × IsMoved healthy child replicas states
unfolding exclude_nexus_replica
exclude_nexus_replica-none healthy uuid false listed fault replicas states h = ground (arith, h)
exclude_nexus_replica-none healthy uuid true (err e) fault replicas states h = ground (arith, h)
exclude_nexus_replica-none healthy uuid true panic fault replicas states h = ground (arith, h)
exclude_nexus_replica-none healthy uuid true (ok []) fault replicas states h = ground (arith, h)
exclude_nexus_replica-none healthy uuid true (ok (first ∷ others)) fault replicas states h =
    elim (Option-cases (nexus_of uuid (first ∷ others))) [
      | inl q ↦ ground (arith, q, h)
      | inr (nx, q) ↦ go nx q (local_child nx.children "") refl
    ]
  where
    go :
        (nx : MayastorNexus) (q : nexus_of uuid (first ∷ others) ≡ some nx) (c : Outcome String)
        → local_child nx.children "" ≡ c
        → (nexuses : List MayastorNexus) × (x : MayastorNexus) × (child : String) × (ok
              (first ∷ others)
            ≡ ok nexuses)
          × Memᴰ x nexuses
          × (x.uuid ≡ uuid)
          × IsOnlyLocal child x.children
          × (fault child ≡ none)
          × IsMoved healthy child replicas states
    go nx q (err e) r = ground (arith, q, r, h)
    go nx q panic r = ground (arith, q, r, h)
    go nx q (ok child) r = elim (Bool-cases (child == "")) [
      | inl t ↦ ground (arith, q, r, t, h)
      | inr t ↦ elim (Option-cases (fault child)) [
        | inr (e, f) ↦ ground (arith, q, r, t, f, h)
        | inl f ↦
            let (m, u) = nexus_of-some uuid (first ∷ others) nx q in
            let (gone, done) =
              wait_excluded-none healthy child replicas states (ground (arith, q, r, t, f, h)) in
            let (i, rs, l, a, b) = gone in
            (
              first ∷ others,
              nx,
              child,
              refl,
              m,
              u,
              local_child_only nx.children child r (text_differs child "" t),
              f,
              ((i, rs, l, a, has_uri-false child rs b), done),
            )
      ]
    ]
