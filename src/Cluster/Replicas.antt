-- ===== src/Cluster/Replicas.antt =====
-- The move of a volume's replicas off the node of its nexus (ExcludeNexusReplica of
-- src/common/k8stest/util_replica.go). What the nodes and the control plane answer are parameters.
pub mod Laws
pub mod Children
use mayastor_e2e.Prelude.{
  ℕ, zero, suc, String, ◌==◌, List, [], ◌∷◌, Option, none, some, Outcome, ok, err, panic, Bool,
  true, false, not, ◌&&◌, ◌||◌, if◌then◌else◌, eqb, leb, concat, contains, has_prefix, before,
}
use Prim.Native.String
use Prim.Native.Char.{code}
use mayastor_e2e.Types.{Replica}
use mayastor_e2e.Grpc.Nodes.{MayastorNexus}

-- The results of ExcludeNexusReplica: whether a replica has been moved, and the error.
pub record Exclusion : Type 0 where
  pub excluded : Bool
  pub error : Option String

abbrev pub refused : String → Outcome Exclusion
refused e = ok (record { excluded = false; error = some e })

-- ExcludeNexusReplica: the loop over the children, with the local one found so far, "" for none.
unfoldable pub local_child : List (String × ℕ) → String → Outcome String
local_child [] found = ok found
local_child ((uri, state) ∷ cs) found =
    let first = local_child cs uri in
    let rest = local_child cs found in
    if has_prefix "bdev:///" uri
    then (if found == "" then first else err "More than 1 nexus local replica found")
    else rest

-- ExcludeNexusReplica: the first nexus with the identifier.
unfoldable pub nexus_of : String → List MayastorNexus → Option MayastorNexus
nexus_of uuid [] = none
nexus_of uuid (nx ∷ nexuses) =
    let rest = nexus_of uuid nexuses in if nx.uuid == uuid then some nx else rest

unfoldable pub has_uri : String → List Replica → Bool
has_uri uri [] = false
has_uri uri (r ∷ rs) = r.uri == uri || has_uri uri rs

-- ExcludeNexusReplica: the rounds that wait for the replica to go, and whether the last one found it.
unfoldable pub gone_rounds :
    String → (left n : ℕ) → (ℕ → Outcome (List Replica)) → Bool → Outcome Bool
gone_rounds child zero n answer found = ok found
gone_rounds child (suc left) n answer found = elim (answer n) [
  | err e ↦ err (concat ("Failed to get replicas, err=" ∷ e ∷ []))
  | panic ↦ panic
  | ok replicas ↦
      let rest = gone_rounds child left (suc n) answer true in
      if has_uri child replicas then rest else ok false
]

-- ExcludeNexusReplica: the rounds that wait for the volume to be healthy, and the last state.
unfoldable pub state_rounds : String → (left n : ℕ) → (ℕ → Outcome String) → String → Outcome String
state_rounds healthy zero n answer state = ok state
state_rounds healthy (suc left) n answer state = elim (answer n) [
  | err e ↦ err (concat ("Failed to get state, err=" ∷ e ∷ []))
  | panic ↦ panic
  | ok s ↦
      let rest = state_rounds healthy left (suc n) answer s in if s == healthy then ok s else rest
]

-- ExcludeNexusReplica, once the child is faulted: 23 rounds of each kind.
unfoldable pub wait_excluded :
    String → String → (ℕ → Outcome (List Replica)) → (ℕ → Outcome String) → Outcome Exclusion
wait_excluded healthy child replicas states = elim (gone_rounds child 23 0 replicas false) [
  | err e ↦ refused e
  | panic ↦ panic
  | ok found ↦
      if found
      then ok (record {
        excluded = true;
        error = some "timed out waiting for faulted replica to be removed";
      })
      else elim (state_rounds healthy 23 0 states "") [
        | err e ↦ refused e
        | panic ↦ panic
        | ok state ↦
            if state == healthy
            then ok (record { excluded = true; error = none })
            else ok (record {
              excluded = true;
              error = some "timed out waiting for volume to become healthy";
            })
      ]
]

-- ExcludeNexusReplica, where `fault` is FaultNexusChild of the nexus.
unfoldable pub exclude_nexus_replica :
    String
    → Bool
    → Outcome (List MayastorNexus)
    → (uuid : String) → (String → Option String)
    → (ℕ → Outcome (List Replica))
    → (ℕ → Outcome String)
    → Outcome Exclusion
exclude_nexus_replica healthy can_connect listed uuid fault replicas states =
    if can_connect
    then (elim listed [
      | err e ↦ refused (concat ("Failed to list nexuses, err=" ∷ e ∷ []))
      | panic ↦ panic
      | ok nexuses ↦ elim nexuses [
        | [] ↦ refused "Expected to find at least 1 nexus"
        | first ∷ others ↦ elim (nexus_of uuid (first ∷ others)) [
          | none ↦ refused "failed to find the nexus"
          | some nx ↦ elim (local_child nx.children "") [
            | err e ↦ refused e
            | panic ↦ panic
            | ok child ↦
                if child == ""
                then ok (record { excluded = false; error = none })
                else elim (fault child) [
                  | some e ↦ refused (concat ("Failed to fault child, err=" ∷ e ∷ []))
                  | none ↦ wait_excluded healthy child replicas states
                ]
          ]
        ]
      ]
    ])
    else refused "gRPC calls not enabled"
