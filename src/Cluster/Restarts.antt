-- ===== src/Cluster/Restarts.antt =====
-- The restart of the product (src/common/k8stest/util_testpods.go) and the pools that it makes anew
-- (src/common/k8stest/util.go).
pub mod Laws
pub mod Waits
pub mod Online
use mayastor_e2e.Prelude.{
  ℕ, zero, suc, ◌+◌, ◌-◌, String, List, [], ◌∷◌, Option, none, some, Outcome, ok, err, panic, Bool,
  true, false, not, if◌then◌else◌, leb, concat, length,
}
use Prim.Native.Nat.{◌/◌}
use mayastor_e2e.Types.{ErrorAccumulator, accumulate, get_error}
use mayastor_e2e.Cluster.Nodes.{Node, NodeLocation, get_node_locs}
use mayastor_e2e.Cluster.Pods.{Pod, list_mayastor_pods, check_test_pods_health}

-- RestartMayastorPods: every pod is deleted, and the last error is kept.
unfoldable pub delete_each : (String → Option String) → List String → Option String → Option String
delete_each delete [] e = e
delete_each delete (name ∷ names) e =
    delete_each delete names (elim (delete name) [ none ↦ e | some e' ↦ some e' ])

-- An error as `%v` prints it.
unfoldable pub printed : Option String → String
printed none = "<nil>"
printed (some e) = e

-- RestartMayastorPods: the rounds, for as many pods as there were at first and the error of the last
-- round.
unfoldable pub restart_rounds :
    (wanted now left n : ℕ) → (ℕ → Outcome (List Pod)) → Option String → Outcome (Option String)
restart_rounds wanted now zero n answer e =
    ok (some (concat ("restart failed incomplete error=" ∷ printed e ∷ [])))
restart_rounds wanted now (suc left) n answer e = elim (list_mayastor_pods (some now) (answer n)) [
  | ok names ↦
      let rest = restart_rounds wanted now left (suc n) answer none in
      if leb wanted (length names) then ok none else rest
  | err e' ↦ restart_rounds wanted now left (suc n) answer (some e')
  | panic ↦ panic
]

-- RestartMayastorPods: the pods deleted, and the error. Its first round has the number 1, so that there
-- is one fewer than the seconds allow.
unfoldable pub restart_mayastor_pods :
    (wanted now seconds : ℕ)
    → (String → Option String)
    → (ℕ → Outcome (List Pod))
    → Outcome (List String × Option String)
restart_mayastor_pods wanted now seconds delete answer = elim (list_mayastor_pods none (answer 0)) [
  | err e ↦ ok ([], some e)
  | panic ↦ panic
  | ok names ↦ elim (delete_each delete names none) [
    | some e ↦ ok (names, some e)
    | none ↦ elim (restart_rounds wanted now ((seconds + 10 - 1) / 10 - 1) 1 answer none) [
      | ok e ↦ ok (names, e)
      | err e ↦ ok (names, some e)
      | panic ↦ panic
    ]
  ]
]

-- CreateConfiguredPools: the error of one pool.
unfoldable pub create_error : (String → String → String) → String → Option String → Option String
create_error complaint node none = none
create_error complaint node (some e) = some (complaint node e)

-- CreateConfiguredPools: the loop over the nodes, with the pools asked for.
unfoldable pub create_each :
    (String → String → Option String)
    → (String → String → String)
    → List NodeLocation
    → ErrorAccumulator
    → List String × ErrorAccumulator
create_each create complaint [] errs = ([], errs)
create_each create complaint (node ∷ nodes) errs =
    let pool = concat ("pool-on-" ∷ node.node_name ∷ []) in
    let failed =
      accumulate errs (create_error complaint node.node_name (create pool node.node_name)) in
    let (pools, errs') = create_each create complaint nodes failed in
    let others = create_each create complaint nodes errs in
    if node.mayastor_node then (pool ∷ pools, errs') else others

-- CreateConfiguredPools, where `create pool node` is CreateMsPool and `complaint` prints its error.
unfoldable pub create_configured_pools :
    (String → String → Option String)
    → (String → String → String)
    → (device : String → Bool) → String
    → Option (List Node)
    → Outcome (List String × Option String)
create_configured_pools create complaint is_set device nodes =
    if is_set device
    then (elim (get_node_locs nodes) [
      | err e ↦ ok ([], some (concat ("failed to get list of nodes, error: " ∷ e ∷ [])))
      | panic ↦ panic
      | ok locs ↦
          let (pools, errs) = create_each create complaint locs [] in ok (pools, get_error errs)
    ])
    else ok ([], some (concat ("pool device not configured, PoolDevice: " ∷ device ∷ [])))

-- The loops that wait for the pools: the number of answers read, of which the last may be nil.
unfoldable pub online_rounds : (left n : ℕ) → (ℕ → Option String) → ℕ
online_rounds zero n answer = n
online_rounds (suc left) n answer =
    let rest = online_rounds left (suc n) answer in elim (answer n) [ none ↦ suc n | some e ↦ rest ]

-- WaitForPoolsToBeOnline: it ends at the first answer that is nil, and asks once more after the last.
unfoldable pub pools_rounds : (left n : ℕ) → (ℕ → Option String) → Option String
pools_rounds zero n answer = answer n
pools_rounds (suc left) n answer =
    let rest = pools_rounds left (suc n) answer in elim (answer n) [ none ↦ none | some e ↦ rest ]

unfoldable pub wait_for_pools_to_be_online : ℕ → (ℕ → Option String) → Option String
wait_for_pools_to_be_online seconds answer = pools_rounds ((seconds + 5) / 5 - 1) 0 answer

-- What one call of restartMayastor meets. The results of CleanUp, of DeleteAllPoolFinalizers and of
-- DeleteAllPools are not looked at.
pub record RestartFacts : Type 0 where
  pub pods : Option String
  pub ready : Outcome Bool
  pub has_pool_device : Bool
  pub create_pools : Option String
  pub pools_online : ℕ → Option String
  pub can_connect : Bool
  pub removal : Option String

-- restartMayastor, by the last answer to CheckAllMsPoolsAreOnline.
unfoldable pub clear_replicas : RestartFacts → Option String → Option String
clear_replicas f (some e) = some (concat ("not all pools are online " ∷ e ∷ []))
clear_replicas f none =
    if f.can_connect
    then (elim f.removal [
      | none ↦ none
      | some e ↦ some (concat ("RmReplicasInCluster failed " ∷ e ∷ []))
    ])
    else none

-- restartMayastor, from the wait for the pools on.
unfoldable pub settle : ℕ → RestartFacts → Option String
settle seconds f =
    clear_replicas f (f.pools_online (online_rounds ((seconds + 10 - 1) / 10) 0 f.pools_online))

-- restartMayastor, from the pools on.
unfoldable pub make_pools : ℕ → RestartFacts → Option String
make_pools seconds f =
    if f.has_pool_device
    then (elim f.create_pools [ some e ↦ some e | none ↦ settle seconds f ])
    else settle seconds f

-- restartMayastor; `panic` of MayastorReady ends the process.
unfoldable pub restart_once : ℕ → RestartFacts → Outcome (Option String)
restart_once seconds f = elim f.pods [
  | some e ↦ ok (some (concat ("RestartMayastorPods failed " ∷ e ∷ [])))
  | none ↦ elim f.ready [
    | err e ↦ ok (some (concat ("failure waiting for mayastor to be ready " ∷ e ∷ [])))
    | panic ↦ panic
    | ok ready ↦
        if ready
        then ok (make_pools seconds f)
        else ok (some "mayastor is not ready after deleting all pods")
  ]
]

-- One try of RestartMayastor: the restart, the pods whose health is checked, and ResourceCheck.
pub record Try : Type 0 where
  pub restart : RestartFacts
  pub listed : Option (List Pod)
  pub resources : Option String

unfoldable pub try_error : (ℕ → String) → String → ℕ → Try → Outcome (Option String)
try_error decimal product seconds t = elim (restart_once seconds t.restart) [
  | panic ↦ panic
  | err e ↦ ok (some e)
  | ok failed ↦ elim failed [
    | some e ↦ ok (some e)
    | none ↦ elim (check_test_pods_health decimal product product t.listed) [
      | some e ↦ ok (some e)
      | none ↦ ok t.resources
    ]
  ]
]

-- RestartMayastor: the loop, with the error of the try before.
unfoldable pub restart_tries :
    (ℕ → String)
    → String
    → (seconds left n : ℕ) → (ℕ → Try)
    → Option String
    → Outcome (Option String × ℕ)
restart_tries decimal product seconds zero n answer e = ok (e, n)
restart_tries decimal product seconds (suc left) n answer e =
    elim (try_error decimal product seconds (answer n)) [
      | panic ↦ panic
      | err e' ↦ restart_tries decimal product seconds left (suc n) answer (some e')
      | ok result ↦ elim result [
        | some e' ↦ restart_tries decimal product seconds left (suc n) answer (some e')
        | none ↦ ok (none, suc n)
      ]
    ]

-- RestartMayastor: the error, and how many times it tried.
unfoldable pub restart_mayastor :
    (ℕ → String) → String → ℕ → (ℕ → Try) → Outcome (Option String × ℕ)
restart_mayastor decimal product seconds answer =
    restart_tries decimal product seconds 3 0 answer none
