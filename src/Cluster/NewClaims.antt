-- ===== src/Cluster/NewClaims.antt =====
-- The making of a volume claim (MkPVC of src/common/k8stest/util_pvc.go) and its waits. What is asked for
-- again while it is waited for takes the n-th answer at its n-th time.
pub mod Laws
use mayastor_e2e.Prelude.{
  ℕ, zero, suc, String, ◌==◌, List, [], ◌∷◌, Option, none, some, Outcome, ok, err, panic, Bool,
  true, false, if◌then◌else◌, concat,
}
use mayastor_e2e.Types.{VolumeType, vol_file_system, vol_raw_block, vol_type_none}
use mayastor_e2e.Cluster.Claims.{
  ClaimPhase, claim_bound, claim_pending, claim_lost, other_claim, VolumePhase, volume_bound,
  volume_available, volume_failed, volume_pending, volume_released, other_volume, Answer, found,
  nil, failed, ClaimObject,
}

-- The claim that is asked for; the mode is nil for a volume of no type.
pub record ClaimRequest : Type 0 where
  pub name : String
  pub namespace : String
  pub class : String
  pub size : String
  pub mode : Option String

unfoldable pub volume_mode : VolumeType → Option String
volume_mode vol_file_system = some "Filesystem"
volume_mode vol_raw_block = some "Block"
volume_mode vol_type_none = none

-- MkPVC: the request, by the size in MiB as it is printed.
unfoldable pub claim_request : (size name class : String) → VolumeType → String → ClaimRequest
claim_request size name class type namespace = record {
  name = name;
  namespace = namespace;
  class = class;
  size = concat (size ∷ "Mi" ∷ []);
  mode = volume_mode type;
}

-- GetPvcStatusPhase and GetPvStatusPhase
unfoldable pub get_pvc_status_phase :
    (name namespace : String) → Answer ClaimPhase → Outcome ClaimPhase
get_pvc_status_phase name namespace (found phase) = ok phase
get_pvc_status_phase name namespace nil =
    err (concat ("PVC " ∷ name ∷ " not found, namespace: " ∷ namespace ∷ []))
get_pvc_status_phase name namespace (failed e) =
    err (concat ("failed to get pvc: " ∷ name ∷ ", namespace: " ∷ namespace ∷ ", error: " ∷ e ∷ []))

unfoldable pub get_pv_status_phase : String → Answer VolumePhase → Outcome VolumePhase
get_pv_status_phase name (found phase) = ok phase
get_pv_status_phase name nil = err (concat ("PV not found: " ∷ name ∷ []))
get_pv_status_phase name (failed e) =
    err (concat ("failed to get pv: " ∷ name ∷ ", error: " ∷ e ∷ []))

unfoldable pub is_claim_bound : ClaimPhase → Bool
is_claim_bound claim_bound = true
is_claim_bound claim_pending = false
is_claim_bound claim_lost = false
is_claim_bound other_claim = false

unfoldable pub is_volume_bound : VolumePhase → Bool
is_volume_bound volume_bound = true
is_volume_bound volume_available = false
is_volume_bound volume_failed = false
is_volume_bound volume_pending = false
is_volume_bound volume_released = false
is_volume_bound other_volume = false

-- IsPvcBound
unfoldable pub is_pvc_bound : (name namespace : String) → Answer ClaimPhase → Bool × Option String
is_pvc_bound name namespace answer = elim (get_pvc_status_phase name namespace answer) [
  | ok phase ↦ (is_claim_bound phase, none)
  | err e ↦ (false, some e)
  | panic ↦ (false, none)
]

-- The loops of MkPVC that wait for a phase: the error of the last round, nil where the phase could be
-- read.
unfoldable pub phase_rounds {ℓ} :
    {A : Type ℓ} (wanted : A → Bool) (left n : ℕ) (answer : ℕ → Outcome A) (last : Option String)
    → Outcome (Option String)
phase_rounds wanted zero n answer last = ok last
phase_rounds wanted (suc left) n answer last = elim (answer n) [
  | panic ↦ panic
  | err e ↦ phase_rounds wanted left (suc n) answer (some e)
  | ok phase ↦
      let rest = phase_rounds wanted left (suc n) answer none in
      if wanted phase then ok none else rest
]

-- The loops of MkPVC that wait for an object: the last answer.
unfoldable pub object_rounds {ℓ} :
    {A : Type ℓ} (left n : ℕ) (answer : ℕ → Answer A) (last : Answer A) → Answer A
object_rounds zero n answer last = last
object_rounds (suc left) n answer last = elim (answer n) [
  | found a ↦ found a
  | nil ↦ object_rounds left (suc n) answer nil
  | failed e ↦ object_rounds left (suc n) answer (failed e)
]

pub record Making : Type 0 where
  pub create : Option String
  pub claim : Answer ClaimObject
  pub waits_for_consumer : Outcome Bool
  pub claim_phase : ℕ → Answer ClaimPhase
  pub claim_again : Answer ClaimObject
  pub volume : ℕ → Answer String
  pub volume_phase : ℕ → Answer VolumePhase
  pub msv : ℕ → Answer (Unit {0})
  pub consistency : Option String

-- MkPVC, from the product's volume on.
unfoldable pub make_msv : Making → ClaimObject → Outcome String
make_msv f claim = elim (object_rounds 360 0 f.msv nil) [
  | failed e ↦
      err (concat ("failed to get mayastor volume, uuid: " ∷ claim.uid ∷ ", error: " ∷ e ∷ []))
  | nil ↦ elim f.consistency [
    | none ↦ ok claim.uid
    | some e ↦
        err (concat ("msv consistency check failed, msv uuid: " ∷ claim.uid ∷ ", error: " ∷ e ∷ []))
  ]
  | found a ↦ elim f.consistency [
    | none ↦ ok claim.uid
    | some e ↦
        err (concat ("msv consistency check failed, msv uuid: " ∷ claim.uid ∷ ", error: " ∷ e ∷ []))
  ]
]

-- MkPVC, from the cluster's volume on.
unfoldable pub make_volume : Making → ClaimObject → Outcome String
make_volume f claim = elim (object_rounds 360 0 f.volume nil) [
  | failed e ↦ err (concat ("failed to get pv, pv: " ∷ claim.volume_name ∷ ", error: " ∷ e ∷ []))
  | nil ↦ panic
  | found name ↦
      elim (phase_rounds is_volume_bound 360 0 (λ n. get_pv_status_phase name (f.volume_phase n))
        none) [
          | err e ↦ err e
          | panic ↦ panic
          | ok failure ↦ elim failure [
            | none ↦ make_msv f claim
            | some e ↦ err (
                concat ("failed to get pv status, pv: " ∷ claim.volume_name ∷ ", error: " ∷ e ∷ []))
          ]
        ]
]

-- A claim that is read, or the error of MkPVC.
unfoldable pub read_claim : (name namespace : String) → Answer ClaimObject → Outcome ClaimObject
read_claim name namespace (found claim) = ok claim
read_claim name namespace nil =
    err (concat ("PVC " ∷ name ∷ " not found, namespace: " ∷ namespace ∷ []))
read_claim name namespace (failed e) =
    err (concat ("failed to get pvc: " ∷ name ∷ ", namespace: " ∷ namespace ∷ ", error: " ∷ e ∷ []))

-- MkPVC, once the claim is to be bound.
unfoldable pub bind_claim : (name namespace : String) → Making → Outcome String
bind_claim name namespace f =
    elim (phase_rounds is_claim_bound 360 0
      (λ n. get_pvc_status_phase name namespace (f.claim_phase n)) none) [
        | err e ↦ err e
        | panic ↦ panic
        | ok failure ↦ elim failure [
          | some e ↦ err (
              concat (
                "failed to get pvc status, pvc: " ∷ name ∷ ", namespace:  " ∷ namespace
                ∷ ", error: " ∷ e ∷ []))
          | none ↦ elim (read_claim name namespace f.claim_again) [
            | ok claim ↦ make_volume f claim
            | err e ↦ err e
            | panic ↦ panic
          ]
        ]
      ]

-- MkPVC, of a claim that has been asked for with claim_request; `waits_for_consumer` panics where the
-- storage class has no binding mode.
unfoldable pub mk_pvc : (name class namespace : String) → Making → Outcome String
mk_pvc name class namespace f = elim f.create [
  | some e ↦ err (concat ("failed to create pvc: " ∷ name ∷ ", error: " ∷ e ∷ []))
  | none ↦ elim (read_claim name namespace f.claim) [
    | err e ↦ err e
    | panic ↦ panic
    | ok claim ↦ elim f.waits_for_consumer [
      | err e ↦ err (concat ("failed to get storageclass: " ∷ class ∷ ", error: " ∷ e ∷ []))
      | panic ↦ panic
      | ok waits ↦ if waits then ok claim.uid else bind_claim name namespace f
    ]
  ]
]
