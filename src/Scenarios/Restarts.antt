-- ===== src/Scenarios/Restarts.antt =====
-- The properties of the restart of the product, of its replicas and of claims at concrete inputs.
use mathlib.Core.List.{Memᴰ}
use mayastor_e2e.Prelude.{
  ◌≡◌, refl, ℕ, zero, suc, ◌<◌, String, List, [], ◌∷◌, Option, some, none, Outcome, ok, true, false,
  All, has_prefix,
}
use mayastor_e2e.Types.{Replica}
use mayastor_e2e.Kubernetes.{pod_running}
use mayastor_e2e.Grpc.Nodes.{MayastorNexus}
use mayastor_e2e.Cluster.Pods.{
  Pod, check_test_pods_health, pod_errors, container_errors, restart_error, phase_error,
  joined_errors, bad_phase, is_pod_health_check_candidate,
}
use mayastor_e2e.Cluster.Pods.Laws.{IsPassed}
use mayastor_e2e.Cluster.Restarts.{
  RestartFacts, Try, restart_mayastor, restart_tries, try_error, restart_once, make_pools, settle,
  clear_replicas, online_rounds,
}
use mayastor_e2e.Cluster.Restarts.Laws.{IsRestarted, restart_mayastor_lem}
use mayastor_e2e.Cluster.Claims.{
  ClaimPhase, claim_bound, VolumePhase, volume_released, Answer, found, failed, ClaimObject,
  Removal, rm_pvc, remove_claim, remove_volume, wait_volume, remove_msv, after_wait, deleted_rounds,
  msv_rounds, is_pvc_deleted, is_pv_deleted, says_not_found, has_suffix, claim_is_valid,
  volume_is_valid,
}
use mayastor_e2e.Cluster.Claims.Laws.{IsGone, IsRemoved, rm_pvc-none}
use mayastor_e2e.Cluster.Replicas.{
  exclude_nexus_replica, wait_excluded, nexus_of, local_child, gone_rounds, has_uri, state_rounds,
}
use mayastor_e2e.Cluster.Replicas.Children.{IsOnlyLocal}
use mayastor_e2e.Cluster.Replicas.Laws.{IsMoved, exclude_nexus_replica-none}

abbrev decimal : ℕ → String
decimal n = "0"

-- The pools are online at the second answer.
abbrev pools : ℕ → Option String
pools zero = some "pool-on-w1 is offline"
pools (suc n) = none

abbrev restart : Option String → RestartFacts
restart problem = record {
  pods = problem;
  ready = ok true;
  has_pool_device = true;
  create_pools = none;
  pools_online = pools;
  can_connect = true;
  removal = none;
}

abbrev product_pod : Pod
product_pod = record {
  name = "mayastor-1";
  node = "w1";
  phase = pod_running;
  created = 7;
  deleted = false;
  containers =
      record { name = "mayastor"; ready = true; terminated = none; restart_count = 0 } ∷ [];
}

-- The first try fails, and every later one succeeds.
abbrev tries : ℕ → Try
tries zero = record {
  restart = restart (some "busy");
  listed = some (product_pod ∷ []);
  resources = none;
}
tries (suc n) = record {
  restart = restart none;
  listed = some (product_pod ∷ []);
  resources = none;
}

restart_mayastor_lem_example :
    (i : ℕ) × (i < 3)
    × (2 ≡ suc i)
    × IsRestarted 20 (tries i).restart
    × ((pods : List Pod) × ((tries i).listed ≡ some pods)
        × All (IsPassed "mayastor" "mayastor") pods)
    × ((tries i).resources ≡ none)
unfolding restart_mayastor restart_tries try_error restart_once make_pools settle clear_replicas
    online_rounds check_test_pods_health pod_errors container_errors restart_error phase_error
    joined_errors bad_phase is_pod_health_check_candidate has_prefix
restart_mayastor_lem_example = restart_mayastor_lem decimal "mayastor" 20 tries 2 refl

abbrev nexus : MayastorNexus
nexus = record {
  name = "n1";
  uuid = "n1";
  size = 64;
  state = 1;
  children = ("nvmf://r2", 1) ∷ ("bdev:///r1", 1) ∷ [];
  device_uri = "";
  rebuilds = 0;
}

abbrev replica : String → Replica
replica uri = record { node = "w1"; offline = false; pool = "p1"; uri = uri }

-- The faulted replica is gone at the second answer, and so is the fault of the volume.
abbrev replicas : ℕ → Outcome (List Replica)
replicas zero = ok (replica "bdev:///r1" ∷ [])
replicas (suc n) = ok (replica "nvmf://r3" ∷ [])

abbrev states : ℕ → Outcome String
states zero = ok "Degraded"
states (suc n) = ok "Online"

abbrev fault : String → Option String
fault child = none

exclude_nexus_replica-none_example :
    (nexuses : List MayastorNexus) × (nx : MayastorNexus) × (child : String) × (ok (nexus ∷ [])
      ≡ ok nexuses)
    × Memᴰ nx nexuses
    × (nx.uuid ≡ "n1")
    × IsOnlyLocal child nx.children
    × (fault child ≡ none)
    × IsMoved "Online" child replicas states
unfolding exclude_nexus_replica wait_excluded nexus_of local_child gone_rounds has_uri state_rounds
    has_prefix
exclude_nexus_replica-none_example =
    exclude_nexus_replica-none "Online" "n1" true (ok (nexus ∷ [])) fault replicas states refl

-- The claim is there once more and then gone, and so is its volume.
abbrev claim_phases : ℕ → Answer ClaimPhase
claim_phases zero = found claim_bound
claim_phases (suc n) = failed "persistentvolumeclaims c1 not found"

abbrev volume_phases : ℕ → Answer VolumePhase
volume_phases zero = found volume_released
volume_phases (suc n) = failed "persistentvolumes v1 not found"

abbrev removal : Removal
removal = record {
  claim = found (record { volume_name = "v1"; uid = "u1" });
  delete = none;
  claim_phase = claim_phases;
  volume_phase = volume_phases;
  msv_deleted = λ n. true;
}

rm_pvc-none_example :
    (claim : ClaimObject) × (removal.claim ≡ found claim)
    × (removal.delete ≡ none)
    × IsGone (λ (n : ℕ). is_pvc_deleted "c1" "default" (removal.claim_phase n))
    × IsRemoved removal claim
unfolding rm_pvc remove_claim remove_volume wait_volume remove_msv after_wait deleted_rounds
    msv_rounds is_pvc_deleted is_pv_deleted says_not_found has_suffix claim_is_valid volume_is_valid
    has_prefix
rm_pvc-none_example = rm_pvc-none (λ e. false) "c1" "default" removal refl
