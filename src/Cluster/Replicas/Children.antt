-- ===== src/Cluster/Replicas/Children.antt =====
-- Which child of a nexus ExcludeNexusReplica (src/common/k8stest/util_replica.go) takes.
use mathlib.Core.List.{Memᴰ}
use mayastor_e2e.Prelude.{
  sym, ap, ◌≢◌, ◌++◌, All, has_prefix, text_ne, text_self, ℕ, ◌≡◌, subst, String, List, [], ◌∷◌,
  some, ok, true, false, arith, Bool-cases, text_cases, inl, inr,
}
use mayastor_e2e.Types.{Replica}
use mayastor_e2e.Grpc.Nodes.{MayastorNexus}
use mayastor_e2e.Cluster.Replicas.{local_child, nexus_of, has_uri}

some-injective {ℓ} : {A : Type ℓ} {a b : A} → some a ≡ some b → a ≡ b
some-injective h = cc h

pub nexus_of-some :
    (uuid : String) (nexuses : List MayastorNexus) (nx : MayastorNexus)
    → nexus_of uuid nexuses ≡ some nx
    → Memᴰ nx nexuses × (nx.uuid ≡ uuid)
unfolding nexus_of
nexus_of-some uuid [] nx h = cc h
nexus_of-some uuid (n ∷ ns) nx h = elim (text_cases n.uuid uuid) [
  | inl (t, q) ↦
      let same : n ≡ nx = some-injective (ground (arith, t, h)) in
      (Memᴰ.head (sym same), subst (λ (x : MayastorNexus). x.uuid ≡ uuid) same q)
  | inr (t, q) ↦ let (m, u) = nexus_of-some uuid ns nx (ground (arith, t, h)) in (Memᴰ.tail m, u)
]

prefix_ne : has_prefix "bdev:///" "" ≢ true
unfolding has_prefix
prefix_ne p = cc p

-- The child is on the node of the nexus, and no other of the children is.
abbrev pub IsOnlyLocal : String → List (String × ℕ) → Type 0
IsOnlyLocal child children =
    (before after : List (String × ℕ)) × (state : ℕ) × (children
      ≡ before ++ ((child, state) ∷ after))
    × (has_prefix "bdev:///" child ≡ true)
    × All (λ (c : String × ℕ). has_prefix "bdev:///" c.0 ≡ false) before
    × All (λ (c : String × ℕ). has_prefix "bdev:///" c.0 ≡ false) after

local_child_rest :
    (cs : List (String × ℕ)) (found child : String)
    → found ≢ ""
    → local_child cs found ≡ ok child
    → (child ≡ found) × All (λ (c : String × ℕ). has_prefix "bdev:///" c.0 ≡ false) cs
unfolding local_child
local_child_rest [] found child n h = (ground (arith, h), tt)
local_child_rest ((uri, state) ∷ cs) found child n h =
    elim (Bool-cases (has_prefix "bdev:///" uri)) [
      | inl p ↦ ground (arith, p, text_ne found "" n, h)
      | inr p ↦
          let (q, all) = local_child_rest cs found child n (ground (arith, p, h)) in (q, (p, all))
    ]

pub local_child_only :
    (cs : List (String × ℕ)) (child : String)
    → local_child cs "" ≡ ok child
    → child ≢ ""
    → IsOnlyLocal child cs
unfolding local_child
local_child_only [] child h n = absurd (n (ground (arith, h)))
local_child_only ((uri, state) ∷ cs) child h n = elim (Bool-cases (has_prefix "bdev:///" uri)) [
  | inl p ↦
      let (q, all) =
        local_child_rest cs uri child (uri_ne p) (ground (arith, p, text_self "", h)) in
      (
        [],
        cs,
        state,
        ap (λ (u : String). (u, state) ∷ cs) (sym q),
        subst (λ (u : String). has_prefix "bdev:///" u ≡ true) (sym q) p,
        tt,
        all,
      )
  | inr p ↦
      let (before, after, s, q, l, b, a) = local_child_only cs child (ground (arith, p, h)) n in
      (
        (uri, state) ∷ before,
        after,
        s,
        ap (λ (r : List (String × ℕ)). (uri, state) ∷ r) q,
        l,
        (p, b),
        a,
      )
]
  where
    uri_ne : has_prefix "bdev:///" uri ≡ true → uri ≢ ""
    uri_ne p e = prefix_ne (subst (λ (u : String). has_prefix "bdev:///" u ≡ true) e p)

pub has_uri-false :
    (child : String) (rs : List Replica)
    → has_uri child rs ≡ false
    → All (λ (r : Replica). r.uri ≢ child) rs
unfolding has_uri
has_uri-false child [] h = tt
has_uri-false child (r ∷ rs) h = elim (text_cases r.uri child) [
  | inl (t, q) ↦ ground (arith, t, h)
  | inr (t, q) ↦ (q, has_uri-false child rs (ground (arith, t, h)))
]
