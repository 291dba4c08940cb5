-- ===== src/Grpc/Nodes.antt =====
-- What the gRPC client reads from one node and from all (src/common/mayastorclient/pool.go, nexus.go,
-- replica.go, nvmecontrollers.go): one call under retryBackoff, its reply read, and the loops over the
-- addresses, which go on after an error and accumulate the errors.
use mayastor_e2e.Prelude.{
  ℕ, String, ◌==◌, List, [], ◌∷◌, ◌++◌, Option, none, some, Bool, if◌then◌else◌, concat,
}
use mayastor_e2e.Grpc.{Error, failure, Reply, replied, failed, Call, nice_error, retry_backoff}

-- MayastorPool, MayastorNexus, MayastorReplica and NvmeController. The enumerations of the protocol
-- are numbers.
pub record MayastorPool : Type 0 where
  pub name : String
  pub disks : List String
  pub state : ℕ
  pub capacity : ℕ
  pub used : ℕ

pub record MayastorNexus : Type 0 where
  pub name : String
  pub uuid : String
  pub size : ℕ
  pub state : ℕ
  pub children : List (String × ℕ)  -- the uri and the state of each
  pub device_uri : String
  pub rebuilds : ℕ

pub record MayastorReplica : Type 0 where
  pub uuid : String
  pub pool : String
  pub thin : Bool
  pub size : ℕ
  pub share : ℕ
  pub uri : String

pub record NvmeController : Type 0 where
  pub name : String
  pub state : ℕ
  pub size : ℕ
  pub blk_size : ℕ

-- A value or an error.
pub data Answer {ℓ} (A : Type ℓ) : Type ℓ where
  value : A → Answer A
  fault : Error → Answer A

-- An address, with what its node answers to the call that is made of it.
pub record Node {ℓ} (R : Type ℓ) : Type ℓ where
  pub address : String
  pub call : Call R

module _ {ℓ κ} {R : Type ℓ} {A : Type κ} where
  -- The end of listPool and of its siblings. `name` stands in the error for a nil response, and `nice`
  -- is what is done to the error of the call.
  unfoldable pub read_reply :
      (Error → Error) → (R → List A) → String → String → Reply R → Answer (List A)
  unfolding concat
  read_reply nice infos name address (replied none) =
      fault (failure (concat ("nil response for " ∷ name ∷ " on " ∷ address ∷ [])))
  read_reply nice infos name address (replied (some r)) = value (infos r)
  read_reply nice infos name address (failed e) = fault (nice e)

  -- listPool and its siblings: dial, call under retryBackoff, read the reply.
  unfoldable pub list_node : (Error → Error) → (R → List A) → String → Node R → Answer (List A)
  unfolding read_reply
  list_node nice infos name n = elim n.call.dial [
    | some e ↦ fault e
    | none ↦ read_reply nice infos name n.address (retry_backoff n.call.attempt).last
  ]

-- listPool, listNexuses, listReplica, listNvmeController. The messages of the protocol have the fields
-- that the client copies.
unfoldable pub list_pool : Node (List MayastorPool) → Answer (List MayastorPool)
unfolding list_node
list_pool = list_node nice_error (λ pools. pools) "ListPools"

unfoldable pub list_nexus : Node (List MayastorNexus) → Answer (List MayastorNexus)
unfolding list_node
list_nexus = list_node nice_error (λ nexuses. nexuses) "ListNexus"

unfoldable pub list_replica : Node (List MayastorReplica) → Answer (List MayastorReplica)
unfolding list_node
list_replica = list_node nice_error (λ replicas. replicas) "ListReplicas"

unfoldable pub list_nvme_controller : Node (List NvmeController) → Answer (List NvmeController)
unfolding list_node
list_nvme_controller = list_node (λ e. e) (λ controllers. controllers) "ListReplicas"

-- The error that an error is accumulated to: `fmt.Errorf("%v;%v", accErr, err)`, or `err`.
unfoldable pub accumulate : (Error → String) → Option Error → Error → Error
unfolding concat
accumulate print none e = e
accumulate print (some acc) e = failure (concat (print acc ∷ ";" ∷ print e ∷ []))

module _ {ℓ κ} {R : Type ℓ} {A : Type κ} where
  -- The loop of ListPools and of its siblings, with what it has gathered. `keep` is what is appended
  -- of a node's list.
  unfoldable pub gather :
      (Error → String)
      → (Node R → Answer (List A))
      → (List A → List A)
      → List (Node R)
      → List A
      → Option Error
      → List A × Option Error
  unfolding accumulate
  gather print list keep [] infos acc = (infos, acc)
  gather print list keep (n ∷ nodes) infos acc = elim (list n) [
    | value l ↦ gather print list keep nodes (infos ++ keep l) acc
    | fault e ↦ gather print list keep nodes infos (some (accumulate print acc e))
  ]

-- ListPools, ListNexuses, ListReplicas, ListNvmeControllers
unfoldable pub list_pools :
    (Error → String) → List (Node (List MayastorPool)) → List MayastorPool × Option Error
unfolding gather
list_pools print nodes = gather print list_pool (λ l. l) nodes [] none

unfoldable pub list_nexuses :
    (Error → String) → List (Node (List MayastorNexus)) → List MayastorNexus × Option Error
unfolding gather
list_nexuses print nodes = gather print list_nexus (λ l. l) nodes [] none

unfoldable pub list_replicas :
    (Error → String) → List (Node (List MayastorReplica)) → List MayastorReplica × Option Error
unfolding gather
list_replicas print nodes = gather print list_replica (λ l. l) nodes [] none

unfoldable pub list_nvme_controllers :
    (Error → String) → List (Node (List NvmeController)) → List NvmeController × Option Error
unfolding gather
list_nvme_controllers print nodes = gather print list_nvme_controller (λ l. l) nodes [] none

-- The loop of FindReplicas over a node's replicas: those with the uuid.
unfoldable pub with_uuid : String → List MayastorReplica → List MayastorReplica
with_uuid uuid [] = []
with_uuid uuid (r ∷ rs) = let rest = with_uuid uuid rs in if r.uuid == uuid then r ∷ rest else rest

-- FindReplicas
unfoldable pub find_replicas :
    (Error → String)
    → String
    → List (Node (List MayastorReplica))
    → List MayastorReplica × Option Error
unfolding gather
find_replicas print uuid nodes = gather print list_replica (with_uuid uuid) nodes [] none

-- The first nexus of a node with the uuid.
unfoldable pub nexus_with : String → List MayastorNexus → Option MayastorNexus
nexus_with uuid [] = none
nexus_with uuid (n ∷ ns) = let rest = nexus_with uuid ns in if n.uuid == uuid then some n else rest

-- The loop of FindNexus, with the errors so far. A nexus that is found is returned with no error.
unfoldable pub find_nexus_from :
    (Error → String)
    → String
    → List (Node (List MayastorNexus))
    → Option Error
    → Option MayastorNexus × Option Error
unfolding accumulate nice_error nexus_with
find_nexus_from print uuid [] acc = (none, acc)
find_nexus_from print uuid (n ∷ nodes) acc = elim (list_nexus n) [
  | value l ↦ elim (nexus_with uuid l) [
    | some nexus ↦ (some nexus, none)
    | none ↦ find_nexus_from print uuid nodes acc
  ]
  | fault e ↦ elim acc [
    | none ↦ find_nexus_from print uuid nodes (some e)
    | some before ↦
        find_nexus_from print uuid nodes (some (accumulate print (some before) (nice_error e)))
  ]
]

-- FindNexus
unfoldable pub find_nexus :
    (Error → String)
    → String
    → List (Node (List MayastorNexus))
    → Option MayastorNexus × Option Error
unfolding find_nexus_from
find_nexus print uuid nodes = find_nexus_from print uuid nodes none

-- The first pool with the name.
unfoldable pub pool_named : String → List MayastorPool → Option MayastorPool
pool_named name [] = none
pool_named name (p ∷ ps) = let rest = pool_named name ps in if p.name == name then some p else rest

-- GetPool, where `not_found` is the error that k8serrors.NewNotFound makes.
unfoldable pub get_pool : Error → String → Node (List MayastorPool) → Answer MayastorPool
unfolding pool_named
get_pool not_found name n = elim (list_pool n) [
  | fault e ↦ fault e
  | value pools ↦ elim (pool_named name pools) [ none ↦ fault not_found | some p ↦ value p ]
]

-- FaultNexusChild
unfoldable pub fault_nexus_child {ℓ} : {R : Type ℓ} → Node R → Option Error
unfolding nice_error
fault_nexus_child n = elim n.call.dial [
  | some e ↦ some e
  | none ↦ elim (retry_backoff n.call.attempt).last [
    | failed e ↦ some (nice_error e)
    | replied r ↦ elim r [
      | none ↦ some (failure "nil response to FaultNexusChild")
      | some null ↦ none
    ]
  ]
]
