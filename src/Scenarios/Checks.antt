-- ===== src/Scenarios/Checks.antt =====
-- The properties of the tests' own library at concrete inputs.
use mayastor_e2e.Prelude.{
  ◌≡◌, refl, ok, ℕ, ◌⊎◌, String, ◌==◌, List, [], ◌∷◌, Option, some, none, true, false,
  if◌then◌else◌, All, has_prefix,
}
use Prim.Native.Nat.{◌^◌, ◌<◌}
use mayastor_e2e.Cluster.Checks.Usage.{get_msp_usage-total}
use mayastor_e2e.Types.{MayastorPool, accumulate, get_error}
use mayastor_e2e.Cluster.Checks.{
  get_msp_usage, Config, Count, Search, Facts, resource_check, Keeper, before_each_check,
  check_resources, accumulate_all, check_msp_usage, check_grpc, waits, before_last_check,
}
use mayastor_e2e.Cluster.Checks.Laws.{
  IsClean, IsReleased, final_usage, resource_check-IsClean, before_each_check-none,
}
use mayastor_e2e.Cluster.Cleanup.{
  CleanUpFacts, clean_up, sweep_errors, removal_errors, is_swept, is_test_namespace, known,
  error_of,
}
use mayastor_e2e.Cluster.Cleanup.Laws.{IsSwept, IsRemoved, clean_up_lem}
use mayastor_e2e.Builders.Containers.{ContainerCall, build_container, new_container_builder}
use mayastor_e2e.Builders.Laws.{call_all, all_valid, is_ok, build_container-call_all}

abbrev config : Config
config = record { self_test = false; fail_quick = true; before_each_check_and_restart = false }

abbrev absent : Search
absent = record { found = false; error = none }

abbrev zero_count : Count
zero_count = record { number = 0; error = none }

abbrev facts : Facts
facts = record {
  pods_health = none;
  pods = absent;
  pvcs = absent;
  pvs = absent;
  msvs = zero_count;
  storage_classes = absent;
  pools_online = none;
  msp_usage = λ n. zero_count;
  can_connect = true;
  pool_usage = λ n. zero_count;
  nexuses = zero_count;
  replicas = zero_count;
  nvme_controllers = zero_count;
}

abbrev decimal : ℕ → String
decimal n = "0"

resource_check-IsClean_example :
    IsClean config facts
    × ((final_usage config true [] facts.msp_usage).number ≡ 0)
    × (facts.can_connect ≡ true → IsReleased config true facts)
unfolding resource_check check_resources check_msp_usage check_grpc accumulate_all accumulate
    get_error waits
resource_check-IsClean_example = resource_check-IsClean decimal config true facts refl

abbrev keeper : Keeper
keeper = record { resource_check_error = none; initial_pod_count = 0; restarts = 0 }

before_each_check-none_example :
    ((◌≡◌ {A = Option String} none none)
      ⊎ ((config.before_each_check_and_restart ≡ true) × (◌≡◌ {A = Option String} (some "x") none)))
    × ((before_each_check config (some "x") none (ok 5) keeper).1.resource_check_error ≡ none)
unfolding before_each_check before_last_check
before_each_check-none_example = before_each_check-none config (some "x") none 5 keeper refl

abbrev sweep : CleanUpFacts
sweep = record {
  namespaces = ok ("default" ∷ "e2e-maya-1" ∷ "kube-system" ∷ []);
  deployments = λ ns. none;
  pods = λ ns. none;
  pvcs = λ ns. if ns == "kube-system" then some "not ours" else none;
  pvs = none;
  msvs = none;
  storage_classes = none;
  removal = λ ns. none;
  node_labels = none;
}

clean_up_lem_example :
    (error_of sweep.namespaces ≡ none)
    × All (λ (ns : String). IsSwept sweep ns) (known sweep.namespaces)
    × All (λ (ns : String). IsRemoved sweep ns) (known sweep.namespaces)
    × (sweep.pvs ≡ none)
    × (sweep.msvs ≡ none)
    × (sweep.storage_classes ≡ none)
    × (sweep.node_labels ≡ none)
unfolding clean_up sweep_errors removal_errors is_swept is_test_namespace has_prefix accumulate
clean_up_lem_example = clean_up_lem sweep refl

abbrev calls : List (ContainerCall ℕ)
calls =
    ContainerCall.with_name "fio"
    ∷ ContainerCall.with_image ""
    ∷ ContainerCall.with_image "fio:1"
    ∷ []

abbrev printed : List String → String
printed es = "errors"

build_container-call_all_example :
    is_ok (build_container printed (call_all calls new_container_builder)) ≡ all_valid calls
build_container-call_all_example = build_container-call_all printed calls

abbrev used_pool : MayastorPool
used_pool = record {
  name = "p1";
  spec = record { disks = []; node = "w1" };
  status = record {
    avail = 60;
    capacity = 100;
    disks = [];
    reason = "";
    spec = record { disks = []; node = "w1" };
    state = "Online";
    used = 40;
  };
}

get_msp_usage-total_example :
    (get_msp_usage (ok (used_pool ∷ [])) ≡ ok (record { number = 40; error = none }))
    × (40 < 2 ^ 64)
    × (40 < 2 ^ 64
        → get_msp_usage (ok (used_pool ∷ [])) ≡ ok (record { number = 0; error = none })
        → All (λ (p : MayastorPool). p.status.used ≡ 0) (used_pool ∷ []))
get_msp_usage-total_example = get_msp_usage-total (used_pool ∷ [])
