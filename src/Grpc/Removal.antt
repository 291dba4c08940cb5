-- ===== src/Grpc/Removal.antt =====
-- Removing what the nodes have (src/common/mayastorclient/replica.go, pool.go): RmReplica,
-- CreateReplica, RmNodeReplicas, DestroyPool and DestroyAllPools, with the calls that they make.
pub mod Laws
use mayastor_e2e.Prelude.{
  ℕ, String, List, [], ◌∷◌, ◌++◌, Option, none, some, Bool, true, false, if◌then◌else◌,
}
use mayastor_e2e.Grpc.{Error, Reply, replied, failed, Call, nice_error, retry_backoff}
use mayastor_e2e.Grpc.Nodes.{
  MayastorPool, MayastorReplica, Answer, value, fault, Node, accumulate, list_pool, list_replica,
}

-- The error of a reply that is not read.
abbrev pub error_of {ℓ} : {R : Type ℓ} → Reply R → Option Error
error_of (replied r) = none
error_of (failed e) = some e

abbrev pub nice : Option Error → Option Error
nice none = none
nice (some e) = some (nice_error e)

-- RmReplica, by what the node answers to DestroyReplica; CreateReplicaExt ends in the same way.
unfoldable pub rm_replica {ℓ} : {R : Type ℓ} → Call R → Option Error
rm_replica c = elim c.dial [
  | some e ↦ some e
  | none ↦ nice (error_of (retry_backoff c.attempt).last)
]

pub record CreateReplicaRequest : Type 0 where
  pub uuid : String
  pub size : ℕ
  pub thin : Bool
  pub pool : String
  pub share : ℕ

-- CreateReplicaExt, where `node` answers a request.
unfoldable pub create_replica_ext {ℓ} :
    {R : Type ℓ}
    → (CreateReplicaRequest → Call R)
    → (uuid : String) (size : ℕ) (pool : String) (thin : Bool) (share : ℕ) → Option Error
create_replica_ext node uuid size pool thin share =
    let c = node (record { uuid = uuid; size = size; thin = thin; pool = pool; share = share }) in
    elim c.dial [ some e ↦ some e | none ↦ nice (error_of (retry_backoff c.attempt).last) ]

-- CreateReplica: not thin, shared over NVMe-oF, whose number in the protocol is 1.
unfoldable pub create_replica {ℓ} :
    {R : Type ℓ} → (CreateReplicaRequest → Call R) → String → ℕ → String → Option Error
unfolding create_replica_ext
create_replica node uuid size pool = create_replica_ext node uuid size pool false 1

-- DestroyPool: one attempt, and the error as it is.
unfoldable pub destroy_pool {ℓ} : {R : Type ℓ} → Call R → Option Error
destroy_pool c = elim c.dial [ some e ↦ some e | none ↦ error_of (c.attempt 0) ]

-- The loop of RmNodeReplicas over a node's replicas: the removals that are called, and the error that
-- the last of them leaves.
unfoldable pub remove_each {ℓ} :
    {R : Type ℓ}
    → (String → Call R)
    → List MayastorReplica
    → Option Error
    → List String × Option Error
unfolding rm_replica
remove_each node [] e = ([], e)
remove_each node (r ∷ rs) e =
    let rest = remove_each node rs (rm_replica (node r.uuid)) in (r.uuid ∷ rest.0, rest.1)

-- A node, with what it answers to the removal of a replica or of a pool, by uuid or name.
pub record Cleaned (A : Type 0) : Type 0 where
  pub listing : Node (List A)
  pub removal : String → Call (Unit {0})

abbrev pub at_address : String → List String → List (String × String)
at_address a [] = []
at_address a (s ∷ ss) = (a, s) ∷ at_address a ss

abbrev pub accumulate_error : (Error → String) → Option Error → Option Error → Option Error
accumulate_error print acc none = acc
accumulate_error print acc (some e) = some (accumulate print acc e)

-- RmNodeReplicas: the removals that it calls, by address and uuid, and the accumulated error.
unfoldable pub rm_node_replicas :
    (Error → String)
    → List (Cleaned MayastorReplica)
    → Option Error
    → List (String × String) × Option Error
unfolding remove_each
rm_node_replicas print [] acc = ([], acc)
rm_node_replicas print (n ∷ nodes) acc = elim (list_replica n.listing) [
  | fault e ↦ rm_node_replicas print nodes (some (accumulate print acc e))
  | value l ↦
      let done = remove_each n.removal l none in
      let rest = rm_node_replicas print nodes (accumulate_error print acc done.1) in
      (at_address n.listing.address done.0 ++ rest.0, rest.1)
]

-- The loop of DestroyAllPools over a node's pools, which ends at the first error.
unfoldable pub destroy_each {ℓ} :
    {R : Type ℓ} → (String → Call R) → List MayastorPool → List String × Option Error
unfolding destroy_pool
destroy_each node [] = ([], none)
destroy_each node (p ∷ ps) =
    let rest = destroy_each node ps in
    elim (destroy_pool (node p.name)) [
      | some e ↦ (p.name ∷ [], some e)
      | none ↦ (p.name ∷ rest.0, rest.1)
    ]

-- DestroyAllPools: the calls of DestroyPool, by address and name, and the first error.
unfoldable pub destroy_all_pools :
    List (Cleaned MayastorPool) → List (String × String) × Option Error
unfolding destroy_each
destroy_all_pools [] = ([], none)
destroy_all_pools (n ∷ nodes) =
    let rest = destroy_all_pools nodes in
    elim (list_pool n.listing) [
      | fault e ↦ ([], some e)
      | value pools ↦
          let done = destroy_each n.removal pools in
          elim done.1 [
            | some e ↦ (at_address n.listing.address done.0, some e)
            | none ↦ (at_address n.listing.address done.0 ++ rest.0, rest.1)
          ]
    ]
