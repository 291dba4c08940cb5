-- ===== src/Cluster/Checks.antt =====
-- The checks around each test (src/common/k8stest/test.go): resourceCheck, which looks for what a test
-- has left behind, and BeforeEachCheck and AfterEachCheck, which keep its result.
pub mod Laws
pub mod Usage
use mayastor_e2e.Prelude.{
  ℕ, zero, suc, ◌+◌, String, List, [], ◌∷◌, Option, none, some, Outcome, ok, err, panic, Bool, true,
  false, not, ◌&&◌, ◌||◌, if◌then◌else◌, eqb, concat, length,
}
use Prim.Native.Nat.{◌%◌, ◌^◌}
use mayastor_e2e.Types.{MayastorPool, ErrorAccumulator, accumulate, get_error}

-- The configuration that the checks read.
pub record Config : Type 0 where
  pub self_test : Bool
  pub fail_quick : Bool
  pub before_each_check_and_restart : Bool

-- A count or a use of pools, with the error that came with it.
pub record Count : Type 0 where
  pub number : ℕ
  pub error : Option String

-- A search, with the error that came with it.
pub record Search : Type 0 where
  pub found : Bool
  pub error : Option String

-- getMspUsage, by what ListMsPools gives: the sum of the type uint64, and 0 with an error.
unfoldable pub sum_used : List MayastorPool → ℕ → ℕ
sum_used [] total = total
sum_used (p ∷ ps) total = sum_used ps ((total + p.status.used) % 2 ^ 64)

unfoldable pub get_msp_usage : Outcome (List MayastorPool) → Outcome Count
get_msp_usage (ok pools) = ok (record { number = sum_used pools 0; error = none })
get_msp_usage (err e) = ok (record { number = 0; error = some e })
get_msp_usage panic = panic

-- The answers that resourceCheck meets. The use of the pools is asked for again while it is waited for:
-- `msp_usage n` and `pool_usage n` are the n-th answers.
pub record Facts : Type 0 where
  pub pods_health : Option String
  pub pods : Search
  pub pvcs : Search
  pub pvs : Search
  pub msvs : Count
  pub storage_classes : Search
  pub pools_online : Option String
  pub msp_usage : ℕ → Count
  pub can_connect : Bool
  pub pool_usage : ℕ → Count
  pub nexuses : Count
  pub replicas : Count
  pub nvme_controllers : Count

abbrev pub when : Bool → String → Option String
when true e = some e
when false e = none

-- Accumulate of one error after another.
unfoldable pub accumulate_all : ErrorAccumulator → List (Option String) → ErrorAccumulator
accumulate_all acc [] = acc
accumulate_all acc (e ∷ es) = accumulate_all (accumulate acc e) es

-- The loops that wait for the use of the pools to drop to 0, with `left` rounds to go, `n` answers
-- read and the last of them: 60 rounds of ten seconds, and 60 of two.
unfoldable pub usage_rounds : (left n : ℕ) → (ℕ → Count) → Count → Count
usage_rounds zero n answer last = last
usage_rounds (suc left) n answer last =
    let rest = usage_rounds left (suc n) answer (answer n) in
    if eqb last.number 0 then last else rest

abbrev pub is_some {ℓ} : {A : Type ℓ} → Option A → Bool
is_some none = false
is_some (some a) = true

-- Whether resourceCheck waits for the use to drop.
unfoldable pub waits : Config → Bool → ErrorAccumulator → Count → Bool
waits c wait_for_pools errs first =
    (is_some first.error || not (eqb first.number 0))
    && wait_for_pools
    && not (c.fail_quick && is_some (get_error errs))

-- The checks of resourceCheck before those of the use of the pools.
unfoldable pub check_resources : Config → Facts → ErrorAccumulator
check_resources c f = accumulate_all [] (
    (if c.self_test then none else f.pods_health)
    ∷ f.pods.error
    ∷ when f.pods.found "found Pods"
    ∷ f.pvcs.error
    ∷ when f.pvcs.found "found PersistentVolumeClaims"
    ∷ f.pvs.error
    ∷ when f.pvs.found "found PersistentVolumes"
    ∷ (elim f.msvs.error [
      | some e ↦ some e
      | none ↦ when (not (eqb f.msvs.number 0)) "found MayastorVolumes"
    ])
    ∷ f.storage_classes.error
    ∷ when f.storage_classes.found "found storage classes using mayastor"
    ∷ f.pools_online
    ∷ [])

-- The check of the use that the control plane reports. The error of the answer counts only where it
-- has been waited for.
unfoldable pub check_msp_usage :
    (ℕ → String) → Config → Bool → Facts → ErrorAccumulator → ErrorAccumulator
check_msp_usage decimal c wait_for_pools f errs =
    let first = f.msp_usage 0 in
    let last =
      if waits c wait_for_pools errs first then usage_rounds 60 1 f.msp_usage first else first in
    accumulate_all errs (
      (if waits c wait_for_pools errs first then last.error else none)
      ∷ when (not (eqb last.number 0))
          (concat ("pool usage reported via custom resources " ∷ decimal last.number ∷ []))
      ∷ [])

-- The checks by gRPC.
unfoldable pub check_grpc :
    (ℕ → String) → Config → Bool → Facts → ErrorAccumulator → ErrorAccumulator
check_grpc decimal c wait_for_pools f errs =
    let first = f.pool_usage 0 in
    let last =
      if waits c wait_for_pools errs first then usage_rounds 60 1 f.pool_usage first else first in
    accumulate_all errs (
      last.error
      ∷ when (not (eqb last.number 0))
          (concat ("gRPC: pool usage reported via custom resources " ∷ decimal last.number ∷ []))
      ∷ f.nexuses.error
      ∷ when (not (eqb f.nexuses.number 0)) (
          concat (
            "gRPC: count of nexuses reported via mayastor client is "
            ∷ decimal f.nexuses.number
            ∷ []))
      ∷ f.replicas.error
      ∷ when (not (eqb f.replicas.number 0)) (
          concat (
            "gRPC: count of replicas reported via mayastor client is "
            ∷ decimal f.replicas.number
            ∷ []))
      ∷ f.nvme_controllers.error
      ∷ when (not (eqb f.nvme_controllers.number 0)) (
          concat (
            "gRPC: count of replicas reported via mayastor client is "
            ∷ decimal f.nvme_controllers.number
            ∷ []))
      ∷ [])

-- resourceCheck, where `decimal` is what `%d` prints.
unfoldable pub resource_check : (ℕ → String) → Config → Bool → Facts → Option String
resource_check decimal c wait_for_pools f =
    let errs = check_msp_usage decimal c wait_for_pools f (check_resources c f) in
    get_error (if f.can_connect then check_grpc decimal c wait_for_pools f errs else errs)

-- What the checks keep: the result of the last one, the pods of the product, and the restarts.
pub record Keeper : Type 0 where
  pub resource_check_error : Option String
  pub initial_pod_count : ℕ
  pub restarts : ℕ

-- The end of BeforeEachCheck, by the result of its last check and the answer to listMayastorPods.
unfoldable pub before_last_check : Option String → Outcome ℕ → Keeper → Option String × Keeper
before_last_check (some e) pods k =
    let e' = concat (e ∷ "; not running test case, k8s cluster is not \"clean\"!!! " ∷ []) in
    (some e', record k { resource_check_error = some e' })
before_last_check none (ok n) k =
    (none, record k { resource_check_error = none; initial_pod_count = n })
before_last_check none (err e) k = (
  some (concat (e ∷ "; not running test case, not able to get pod list" ∷ [])),
  record k { resource_check_error = none },
)
before_last_check none panic k = (none, record k { resource_check_error = none })

-- BeforeEachCheck under before_each_check_and_restart, once there is the result to go by: a restart and
-- the last check, or nothing more.
unfoldable pub before_restart :
    Option String → Option String → Outcome ℕ → Keeper → Option String × Keeper
before_restart none last pods k = (none, record k { resource_check_error = none })
before_restart (some e) last pods k =
    before_last_check last pods
      (record k { resource_check_error = some e; restarts = suc k.restarts })

-- AfterEachCheck, where `check` is the result of ResourceCheck.
unfoldable pub after_each_check : Config → Option String → Keeper → Option String × Keeper
after_each_check c check k =
    if c.fail_quick && is_some k.resource_check_error
    then (some "prior ResourceCheck failed", k)
    else (check, record k { resource_check_error = check })

-- BeforeEachCheck, where `first` and `last` are the results of its calls of resourceCheck(false), of
-- which the first is made only where a restart is configured and no check has failed.
unfoldable pub before_each_check :
    Config → (first last : Option String) → Outcome ℕ → Keeper → Option String × Keeper
before_each_check c first last pods k = elim k.resource_check_error [
  | some e ↦
      if c.fail_quick
      then (some "prior ResourceCheck failed", k)
      else if c.before_each_check_and_restart
      then before_restart (some e) last pods k
      else before_last_check last pods k
  | none ↦
      if c.before_each_check_and_restart
      then before_restart first last pods k
      else before_last_check last pods k
]
