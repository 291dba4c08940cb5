-- ===== src/Scenarios/Nodes.antt =====
-- The properties of the gRPC client, of the nodes and of the control plane at concrete inputs.
use mayastor_e2e.Prelude.{
  ok, ◌++◌, All, ◌≡◌, refl, ℕ, zero, suc, ◌<◌, String, ◌==◌, List, [], ◌∷◌, some, none, true, false,
  if◌then◌else◌, arith,
}
use mayastor_e2e.GoMap.{lookup}
use mayastor_e2e.Grpc.{
  Error, deadline_exceeded, failure, Reply, replied, failed, Call, wants_retry,
  is_deadline_exceeded, retry_backoff, retry_rounds,
}
use mayastor_e2e.Grpc.Retry.{retry_backoff_first, retry_backoff_gives_up, waited}
use mayastor_e2e.Grpc.Nodes.{
  list_replica, list_nexus, MayastorReplica, MayastorNexus, MayastorPool, Node, list_node,
  read_reply, list_replicas, find_replicas, list_nexuses, find_nexus, list_pool,
}
use mayastor_e2e.Grpc.Gather.{
  reached, faults, accumulated, Selects, IsFirst, find_replicas-list_replicas,
  find_nexus-list_nexuses,
}
use mayastor_e2e.Grpc.Removal.{Cleaned, destroy_pool, destroy_each, destroy_all_pools}
use mayastor_e2e.Grpc.Removal.Laws.{destroy_all_pools-ok, pools_there, IsEmptied}
use mayastor_e2e.Cluster.Nodes.{
  Node as ApiNode, NodeLocation, host_name, internal_ip, get_node_locs, get_node_locs_map,
  locations, location, address_of, name_of, is_mayastor_node, is_master_node,
}
use mayastor_e2e.Cluster.Nodes.Laws.{Fresh, lookup-get_node_locs_map}

-- The deadline is exceeded once, and then there is an answer.
abbrev late : ℕ → Reply ℕ
late zero = failed (deadline_exceeded "slow")
late (suc n) = replied (some 7)

abbrev never : ℕ → Reply ℕ
never n = failed (deadline_exceeded "slow")

retry_backoff_first_example :
    retry_backoff late ≡ record { last = replied (some 7); calls = 2; slept = waited 5 1 }
unfolding wants_retry is_deadline_exceeded
retry_backoff_first_example = retry_backoff_first 1 late (omega arith) again refl
  where
    again : (i : ℕ) → i < 1 → wants_retry (late i) ≡ true
    again zero lt = refl
    again (suc i) lt = absurd (omega arith)

retry_backoff_gives_up_example :
    retry_backoff never
    ≡ record { last = failed (deadline_exceeded "slow"); calls = 6; slept = 315 }
unfolding wants_retry is_deadline_exceeded
retry_backoff_gives_up_example = retry_backoff_gives_up never (λ (i : ℕ) (lt : i < 6). refl)

abbrev print : Error → String
print (deadline_exceeded e) = e
print (failure e) = e

abbrev answering {ℓ} : {R : Type ℓ} → String → R → Node R
answering address r = record {
  address = address;
  call = record { dial = none; attempt = λ n. replied (some r) };
}

abbrev unreachable {ℓ} : {R : Type ℓ} → String → Node R
unreachable address = record {
  address = address;
  call = record { dial = some (failure "refused"); attempt = λ n. replied none };
}

abbrev replica : MayastorReplica
replica = record { uuid = "r1"; pool = "p1"; thin = false; size = 64; share = 1; uri = "nvmf://r1" }

abbrev replica_nodes : List (Node (List MayastorReplica))
replica_nodes = unreachable "10.0.0.1" ∷ answering "10.0.0.2" (replica ∷ []) ∷ []

find_replicas-list_replicas_example :
    (list_replicas print replica_nodes ≡ (
      reached list_replica replica_nodes,
      accumulated print none (faults list_replica replica_nodes),
    ))
    × Selects "r1" (reached list_replica replica_nodes) (find_replicas print "r1" replica_nodes).0
    × ((find_replicas print "r1" replica_nodes).1
        ≡ accumulated print none (faults list_replica replica_nodes))
find_replicas-list_replicas_example = find_replicas-list_replicas print "r1" replica_nodes

abbrev nexus : MayastorNexus
nexus = record {
  name = "n1";
  uuid = "n1";
  size = 64;
  state = 1;
  children = [];
  device_uri = "";
  rebuilds = 0;
}

abbrev nexus_nodes : List (Node (List MayastorNexus))
nexus_nodes = unreachable "10.0.0.1" ∷ answering "10.0.0.2" (nexus ∷ []) ∷ []

find_nexus-list_nexuses_example :
    ((list_nexuses print nexus_nodes).0 ≡ reached list_nexus nexus_nodes)
    × IsFirst "n1" (reached list_nexus nexus_nodes) (find_nexus print "n1" nexus_nodes).0
find_nexus-list_nexuses_example = find_nexus-list_nexuses print "n1" nexus_nodes

-- Every removal succeeds but that of "r1".
abbrev removals : String → Call (Unit {0})
removals uuid = record {
  dial = if uuid == "r1" then some (failure "busy") else none;
  attempt = λ n. replied (some tt);
}

abbrev pool : MayastorPool
pool = record { name = "p1"; disks = "/dev/sdb" ∷ []; state = 1; capacity = 100; used = 0 }

abbrev pool_node : Cleaned MayastorPool
pool_node = record { listing = answering "10.0.0.2" (pool ∷ []); removal = removals }

destroy_all_pools-ok_example :
    All IsEmptied (pool_node ∷ [])
    × ((destroy_all_pools (pool_node ∷ [])).0 ≡ pools_there (pool_node ∷ []))
unfolding destroy_all_pools destroy_each destroy_pool list_pool list_node read_reply retry_backoff
    retry_rounds wants_retry
destroy_all_pools-ok_example = destroy_all_pools-ok (pool_node ∷ []) refl

abbrev worker : NodeLocation
worker = record {
  node_name = "w1";
  ip_address = "10.0.0.2";
  mayastor_node = true;
  master_node = false;
}

abbrev api_node : ApiNode
api_node = record {
  name = "w1";
  labels = ("openebs.io/engine", "mayastor") ∷ [];
  addresses =
      record { kind = host_name; address = "w1" }
      ∷ record { kind = internal_ip; address = "10.0.0.2" }
      ∷ [];
  taint_keys = [];
  conditions = [];
}

lookup-get_node_locs_map_example :
    (m : List (String × NodeLocation)) × (get_node_locs_map (some (api_node ∷ [])) ≡ ok m)
    × ((before after : List NodeLocation) (l : NodeLocation)
        → (worker ∷ []) ≡ before ++ (l ∷ after)
        → lookup l.node_name m ≡ some l)
    × ((name : String) → Fresh name (worker ∷ []) → lookup name m ≡ none)
unfolding get_node_locs locations location address_of name_of is_mayastor_node is_master_node
lookup-get_node_locs_map_example =
    lookup-get_node_locs_map (some (api_node ∷ [])) (worker ∷ []) refl (tt, tt)
