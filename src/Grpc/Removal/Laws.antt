-- ===== src/Grpc/Removal/Laws.antt =====
-- Which removals RmNodeReplicas and DestroyAllPools (src/common/mayastorclient/replica.go, pool.go)
-- call, and which errors they report.
use mayastor_e2e.Prelude.{
  ◌≡◌, refl, ap, String, List, [], ◌∷◌, ◌++◌, Option, none, some, arith, All, Option-cases, inl,
  inr,
}
use mayastor_e2e.Grpc.{Error, Call}
use mayastor_e2e.Grpc.Nodes.{
  MayastorPool, MayastorReplica, Answer, value, fault, accumulate, list_pool, list_replica,
}
use mayastor_e2e.Grpc.Removal.{
  Cleaned, at_address, rm_replica, remove_each, rm_node_replicas, destroy_pool, destroy_each,
  destroy_all_pools, accumulate_error,
}

abbrev pub replica_uuids : List MayastorReplica → List String
replica_uuids [] = []
replica_uuids (r ∷ rs) = r.uuid ∷ replica_uuids rs

abbrev pub pool_names : List MayastorPool → List String
pool_names [] = []
pool_names (p ∷ ps) = p.name ∷ pool_names ps

-- The uuid of every replica of every node that answers, with the node's address.
unfoldable pub replicas_there : List (Cleaned MayastorReplica) → List (String × String)
replicas_there [] = []
replicas_there (n ∷ nodes) = elim (list_replica n.listing) [
  | fault e ↦ replicas_there nodes
  | value l ↦ at_address n.listing.address (replica_uuids l) ++ replicas_there nodes
]

-- The name of every pool of every node that answers, with the node's address.
unfoldable pub pools_there : List (Cleaned MayastorPool) → List (String × String)
pools_there [] = []
pools_there (n ∷ nodes) = elim (list_pool n.listing) [
  | fault e ↦ pools_there nodes
  | value l ↦ at_address n.listing.address (pool_names l) ++ pools_there nodes
]

-- The node answers, and takes the removal of every pool that it lists.
abbrev pub IsEmptied : Cleaned MayastorPool → Type 0
IsEmptied n =
    (l : List MayastorPool) × (list_pool n.listing ≡ value l)
    × All (λ (p : MayastorPool). destroy_pool (n.removal p.name) ≡ none) l

remove_each_calls {ℓ} :
    {R : Type ℓ} (node : String → Call R) (l : List MayastorReplica) (e : Option Error)
    → (remove_each node l e).0 ≡ replica_uuids l
unfolding remove_each
remove_each_calls node [] e = refl
remove_each_calls node (r ∷ rs) e =
    ap (λ us. r.uuid ∷ us) (remove_each_calls node rs (rm_replica (node r.uuid)))

-- RmNodeReplicas calls RmReplica for exactly the replicas of the nodes that answer, each at its node's
-- address, in the order in which they are listed, whatever removals fail.
pub rm_node_replicas_calls :
    (print : Error → String) (nodes : List (Cleaned MayastorReplica)) (acc : Option Error)
    → (rm_node_replicas print nodes acc).0 ≡ replicas_there nodes
unfolding rm_node_replicas replicas_there
rm_node_replicas_calls print [] acc = refl
rm_node_replicas_calls print (n ∷ nodes) acc =
    go (list_replica n.listing) refl (rm_node_replicas_calls print nodes)
  where
    go :
        (o : Answer (List MayastorReplica))
        → list_replica n.listing ≡ o
        → ((a : Option Error) → (rm_node_replicas print nodes a).0 ≡ replicas_there nodes)
        → (rm_node_replicas print (n ∷ nodes) acc).0 ≡ replicas_there (n ∷ nodes)
    go (value l) q ih =
        rw
          (
            rm_node_replicas,
            replicas_there,
            q,
            remove_each_calls n.removal l none,
            ih (accumulate_error print acc (remove_each n.removal l none).1),
          )
          refl
    go (fault f) q ih =
        rw (rm_node_replicas, replicas_there, q) (ih (some (accumulate print acc f)))

remove_each_last {ℓ} :
    {R : Type ℓ} (node : String → Call R) (l : List MayastorReplica) (r : MayastorReplica)
    (e : Option Error)
    → (remove_each node (l ++ (r ∷ [])) e).1 ≡ rm_replica (node r.uuid)
unfolding remove_each
remove_each_last node [] r e = refl
remove_each_last node (x ∷ l) r e = remove_each_last node l r (rm_replica (node x.uuid))

-- Where a node answers and the removal of the last replica that it lists succeeds, RmNodeReplicas
-- reports nothing of that node, whatever the removals of its other replicas answered.
pub rm_node_replicas_last :
    (print : Error → String) (n : Cleaned MayastorReplica) (nodes : List (Cleaned MayastorReplica))
    (acc : Option Error) (l : List MayastorReplica) (r : MayastorReplica)
    → list_replica n.listing ≡ value (l ++ (r ∷ []))
    → rm_replica (n.removal r.uuid) ≡ none
    → (rm_node_replicas print (n ∷ nodes) acc).1 ≡ (rm_node_replicas print nodes acc).1
unfolding rm_node_replicas
rm_node_replicas_last print n nodes acc l r listing removed =
    rw (rm_node_replicas, listing, remove_each_last n.removal l r none, removed) refl

destroy_each-ok {ℓ} :
    {R : Type ℓ} (node : String → Call R) (l : List MayastorPool)
    → (destroy_each node l).1 ≡ none
    → ((destroy_each node l).0 ≡ pool_names l)
      × All (λ (p : MayastorPool). destroy_pool (node p.name) ≡ none) l
unfolding destroy_each
destroy_each-ok node [] e = (refl, tt)
destroy_each-ok node (p ∷ ps) e = go (destroy_pool (node p.name)) refl (destroy_each-ok node ps) e
  where
    go :
        (o : Option Error)
        → destroy_pool (node p.name) ≡ o
        → ((destroy_each node ps).1 ≡ none
            → ((destroy_each node ps).0 ≡ pool_names ps)
              × All (λ (x : MayastorPool). destroy_pool (node x.name) ≡ none) ps)
        → (destroy_each node (p ∷ ps)).1 ≡ none
        → ((destroy_each node (p ∷ ps)).0 ≡ pool_names (p ∷ ps))
          × All (λ (x : MayastorPool). destroy_pool (node x.name) ≡ none) (p ∷ ps)
    go none q ih h =
        let (names, all) = ih (ground (arith, q, h)) in (ground (arith, names, q), (q, all))
    go (some f) q ih h = ground (arith, q, h)

-- Where DestroyAllPools reports no error, every node has answered and taken the removal of every pool
-- that it lists, and DestroyPool was called for exactly the pools that the nodes list, each at its
-- node's address, in the order in which they are listed.
pub destroy_all_pools-ok :
    (nodes : List (Cleaned MayastorPool))
    → (destroy_all_pools nodes).1 ≡ none
    → All IsEmptied nodes × ((destroy_all_pools nodes).0 ≡ pools_there nodes)
unfolding destroy_all_pools pools_there
destroy_all_pools-ok [] e = (tt, refl)
destroy_all_pools-ok (n ∷ nodes) e = go (list_pool n.listing) refl (destroy_all_pools-ok nodes) e
  where
    go :
        (o : Answer (List MayastorPool))
        → list_pool n.listing ≡ o
        → ((destroy_all_pools nodes).1 ≡ none
            → All IsEmptied nodes × ((destroy_all_pools nodes).0 ≡ pools_there nodes))
        → (destroy_all_pools (n ∷ nodes)).1 ≡ none
        → All IsEmptied (n ∷ nodes) × ((destroy_all_pools (n ∷ nodes)).0 ≡ pools_there (n ∷ nodes))
    go (fault f) q ih h = ground (arith, q, h)
    go (value l) q ih h = elim (Option-cases (destroy_each n.removal l).1) [
      | inr (f, d) ↦ ground (arith, q, d, h)
      | inl d ↦
          let (names, taken) = destroy_each-ok n.removal l d in
          let (emptied, called) = ih (ground (arith, q, d, h)) in
          (((l, q, taken), emptied), ground (arith, q, d, names, called))
    ]
