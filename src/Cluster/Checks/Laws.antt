-- ===== src/Cluster/Checks/Laws.antt =====
-- What a check that passes says of the cluster, and when the checks refuse to run a test
-- (src/common/k8stest/test.go).
use mayastor_e2e.Prelude.{
  ℕ, ◌≡◌, refl, subst, ◌⊎◌, String, List, [], ◌∷◌, Option, none, some, Outcome, ok, Bool, true,
  false, not, arith, if◌then◌else◌, eqb, All, Bool-cases, Option-cases,
}
use mayastor_e2e.Types.{accumulate, get_error-none, accumulate_empty, ErrorAccumulator}
use mayastor_e2e.Cluster.Checks.{
  Config, Count, Search, Facts, when, accumulate_all, usage_rounds, waits, check_resources,
  check_msp_usage, check_grpc, resource_check, Keeper, before_last_check, before_restart,
  before_each_check, after_each_check,
}

-- Nothing was found, and the search did not fail.
abbrev pub IsAbsent : Search → Type 0
IsAbsent s = (s.found ≡ false) × (s.error ≡ none)

abbrev pub IsZero : Count → Type 0
IsZero c = (c.number ≡ 0) × (c.error ≡ none)

-- The cluster as the checks before those of the use of the pools want it.
pub record IsClean (c : Config) (f : Facts) : Type 0 where
  pub healthy : c.self_test ≡ false → f.pods_health ≡ none
  pub no_pods : IsAbsent f.pods
  pub no_pvcs : IsAbsent f.pvcs
  pub no_pvs : IsAbsent f.pvs
  pub no_msvs : IsZero f.msvs
  pub no_classes : IsAbsent f.storage_classes
  pub online : f.pools_online ≡ none

-- Nothing has been accumulated.
accumulate_all_empty :
    (acc : ErrorAccumulator) (es : List (Option String))
    → accumulate_all acc es ≡ []
    → (acc ≡ []) × All (λ e. e ≡ none) es
unfolding accumulate_all
accumulate_all_empty acc [] h = (h, tt)
accumulate_all_empty acc (e ∷ es) h =
    let (first, rest) = accumulate_all_empty (accumulate acc e) es h in
    let (a, b) = accumulate_empty acc e first in (a, (b, rest))

when-none : (b : Bool) (e : String) → when b e ≡ none → b ≡ false
when-none true e h = cc h
when-none false e h = refl

count-none : (n : ℕ) (e : String) → when (not (eqb n 0)) e ≡ none → n ≡ 0
count-none n e h = ground (arith, when-none (not (eqb n 0)) e h)

check_resources-IsClean : (c : Config) (f : Facts) → check_resources c f ≡ [] → IsClean c f
unfolding check_resources
check_resources-IsClean c f h =
    let l = (accumulate_all_empty [] _ h).1 in
    record {
      healthy = λ e. ground (arith, l.0, e);
      no_pods = (when-none f.pods.found _ l.1.1.0, l.1.0);
      no_pvcs = (when-none f.pvcs.found _ l.1.1.1.1.0, l.1.1.1.0);
      no_pvs = (when-none f.pvs.found _ l.1.1.1.1.1.1.0, l.1.1.1.1.1.0);
      no_msvs = volumes f.msvs.error refl l.1.1.1.1.1.1.1.0;
      no_classes = (when-none f.storage_classes.found _ l.1.1.1.1.1.1.1.1.1.0, l.1.1.1.1.1.1.1.1.0);
      online = l.1.1.1.1.1.1.1.1.1.1.0;
    }
  where
    volumes :
        (o : Option String)
        → f.msvs.error ≡ o
        → (elim f.msvs.error [
          | some e ↦ some e
          | none ↦ when (not (eqb f.msvs.number 0)) "found MayastorVolumes"
        ])
          ≡ none
        → IsZero f.msvs
    volumes none e h = (
      count-none f.msvs.number _ (
          subst
            (λ (o : Option String).
              (elim o as (λ x. Option String) [
                | some t ↦ some t
                | none ↦ when (not (eqb f.msvs.number 0)) "found MayastorVolumes"
              ])
              ≡ none)
            e h),
      e,
    )
    volumes (some t) e h = cc (
        subst
          (λ (o : Option String).
            (elim o as (λ x. Option String) [
              | some u ↦ some u
              | none ↦ when (not (eqb f.msvs.number 0)) "found MayastorVolumes"
            ])
            ≡ none)
          e h)

-- The use of the pools that the check ends with.
abbrev pub final_usage : Config → Bool → ErrorAccumulator → (ℕ → Count) → Count
final_usage c wait errs usage =
    if waits c wait errs (usage 0) then usage_rounds 60 1 usage (usage 0) else usage 0

check_msp_usage_empty :
    (decimal : ℕ → String) (c : Config) (wait : Bool) (f : Facts) (errs : ErrorAccumulator)
    → check_msp_usage decimal c wait f errs ≡ []
    → (errs ≡ []) × ((final_usage c wait errs f.msp_usage).number ≡ 0)
unfolding check_msp_usage
check_msp_usage_empty decimal c wait f errs h =
    let l = accumulate_all_empty errs _ h in (l.0, count-none _ _ l.1.1.0)

-- What the checks by gRPC want, if there are any.
pub record IsReleased (c : Config) (wait : Bool) (f : Facts) : Type 0 where
  pub no_usage : IsZero (final_usage c wait [] f.pool_usage)
  pub no_nexuses : IsZero f.nexuses
  pub no_replicas : IsZero f.replicas
  pub no_controllers : IsZero f.nvme_controllers

check_grpc_empty :
    (decimal : ℕ → String) (c : Config) (wait : Bool) (f : Facts) (errs : ErrorAccumulator)
    → check_grpc decimal c wait f errs ≡ []
    → (errs ≡ []) × (errs ≡ [] → IsReleased c wait f)
unfolding check_grpc
check_grpc_empty decimal c wait f errs h =
    let l = accumulate_all_empty errs _ h in
    (
      l.0,
      λ e. record {
        no_usage =
            subst (λ (a : ErrorAccumulator). IsZero (final_usage c wait a f.pool_usage)) e
              (count-none _ _ l.1.1.0, l.1.0);
        no_nexuses = (count-none _ _ l.1.1.1.1.0, l.1.1.1.0);
        no_replicas = (count-none _ _ l.1.1.1.1.1.1.0, l.1.1.1.1.1.0);
        no_controllers = (count-none _ _ l.1.1.1.1.1.1.1.1.0, l.1.1.1.1.1.1.1.0);
      },
    )

-- Where resourceCheck reports nothing, with or without waiting, the cluster has no pods, claims, volumes or
-- storage classes of the tests, all pools are online, and the product's pods are healthy unless the
-- tests test themselves; the use of the pools that it read last is 0; and where gRPC calls can be made,
-- so is the one that it read last of the nodes, which have no nexuses, replicas or controllers.
pub resource_check-IsClean :
    (decimal : ℕ → String) (c : Config) (wait : Bool) (f : Facts)
    → resource_check decimal c wait f ≡ none
    → (IsClean c f
        × ((final_usage c wait [] f.msp_usage).number ≡ 0)
        × (f.can_connect ≡ true → IsReleased c wait f))
unfolding resource_check
resource_check-IsClean decimal c wait f h =
    let usage = connected f.can_connect refl (get_error-none _ h) in
    let base = check_msp_usage_empty decimal c wait f (check_resources c f) usage.0 in
    (
      check_resources-IsClean c f base.0,
      subst (λ (a : ErrorAccumulator). (final_usage c wait a f.msp_usage).number ≡ 0) base.0 base.1,
      usage.1,
    )
  where
    before : ErrorAccumulator
    before = check_msp_usage decimal c wait f (check_resources c f)

    connected :
        (b : Bool)
        → f.can_connect ≡ b
        → (if b then check_grpc decimal c wait f before else before) ≡ []
        → (before ≡ []) × (f.can_connect ≡ true → IsReleased c wait f)
    connected true e g = let l = check_grpc_empty decimal c wait f before g in (l.0, λ t. l.1 l.0)
    connected false e g = (g, λ t. cc (e, t))

-- BeforeEachCheck lets a test run, by returning nil, only where its last check of the resources found
-- nothing, or where it restarts and its first one found nothing; and then what it keeps is that
-- no check has failed.
pub before_each_check-none :
    (c : Config) (first last : Option String) (n : ℕ) (k : Keeper)
    → (before_each_check c first last (ok n) k).0 ≡ none
    → (((last ≡ none) ⊎ ((c.before_each_check_and_restart ≡ true) × (first ≡ none)))
        × ((before_each_check c first last (ok n) k).1.resource_check_error ≡ none))
unfolding before_each_check before_restart before_last_check
before_each_check-none c first last n k h = ground (
  arith,
  Option-cases k.resource_check_error,
  Option-cases first,
  Option-cases last,
  Bool-cases c.before_each_check_and_restart,
  Bool-cases c.fail_quick,
)

-- Under fail_quick a check that has failed stays: from then on every BeforeEachCheck and every
-- AfterEachCheck fails, whatever is found, and nothing is checked, restarted or changed.
pub checks_fail_quick :
    (c : Config) (first last check : Option String) (pods : Outcome ℕ) (k : Keeper) (e : String)
    → c.fail_quick ≡ true
    → k.resource_check_error ≡ some e
    → ((before_each_check c first last pods k ≡ (some "prior ResourceCheck failed", k))
        × (after_each_check c check k ≡ (some "prior ResourceCheck failed", k)))
unfolding before_each_check after_each_check
checks_fail_quick c first last check pods k e quick failed = (ground arith, ground arith)
