-- ===== src/Cluster/Claims.antt =====
-- Volume claims (src/common/k8stest/util_pvc.go): their making and removal with the waits, and the search
-- for those that are left. The answers of the API server and of the control plane are parameters.
pub mod Laws
use mayastor_e2e.Prelude.{
  ℕ, zero, suc, String, ◌==◌, List, [], ◌∷◌, Option, none, some, Outcome, ok, err, panic, Bool,
  true, false, not, ◌&&◌, ◌||◌, if◌then◌else◌, concat, has_prefix, ◌>>=◌,
}
use Prim.Native.String
use mayastor_e2e.Types.{VolumeType, vol_file_system, vol_raw_block, vol_type_none}
use mayastor_e2e.Cluster.Cleanup.{Claim, PersistentVolume, claims_of, volumes_of, is_swept}

pub data ClaimPhase : Type 0 where
  claim_bound claim_pending claim_lost other_claim : ClaimPhase

pub data VolumePhase : Type 0 where
  volume_bound volume_available volume_failed volume_pending volume_released other_volume :
      VolumePhase

-- What a call that gets an object answers.
pub data Answer {ℓ} (A : Type ℓ) : Type ℓ where
  found : A → Answer A
  nil : Answer A
  failed : String → Answer A

-- `strings.HasSuffix(t, s)`
unfoldable pub has_suffix : String → String → Bool
has_suffix s String.[] = s == ""
has_suffix s (String.◌∷◌ c t) = s == String.◌∷◌ c t || has_suffix s t

unfoldable pub claim_is_valid : ClaimPhase → Bool
claim_is_valid claim_bound = true
claim_is_valid claim_pending = true
claim_is_valid claim_lost = true
claim_is_valid other_claim = false

unfoldable pub volume_is_valid : VolumePhase → Bool
volume_is_valid volume_bound = true
volume_is_valid volume_available = true
volume_is_valid volume_failed = true
volume_is_valid volume_pending = true
volume_is_valid volume_released = true
volume_is_valid other_volume = false

unfoldable pub says_not_found : (kind error : String) → Bool
says_not_found kind error = has_prefix kind error && has_suffix " not found" error

-- IsPVCDeleted
unfoldable pub is_pvc_deleted :
    (name namespace : String) → Answer ClaimPhase → Outcome (Bool × Option String)
is_pvc_deleted name namespace (found phase) = ok (not (claim_is_valid phase), none)
is_pvc_deleted name namespace nil = ok (false, none)
is_pvc_deleted name namespace (failed e) =
    if says_not_found "persistentvolumeclaims" e
    then ok (true, none)
    else ok (
      false,
      some (
          concat
            ("failed to get pvc " ∷ name ∷ ", namespace: " ∷ namespace ∷ ", error: " ∷ e ∷ [])),
    )

-- IsPVDeleted: where there is no volume, its phase is read to be logged.
unfoldable pub is_pv_deleted : String → Answer VolumePhase → Outcome (Bool × Option String)
is_pv_deleted name (found phase) = ok (not (volume_is_valid phase), none)
is_pv_deleted name nil = panic
is_pv_deleted name (failed e) =
    if says_not_found "persistentvolumes" e
    then ok (true, none)
    else ok (false, some (concat ("failed to get pv " ∷ name ∷ ", error: " ∷ e ∷ [])))

-- The loops of RmPVC: the last answer.
unfoldable pub deleted_rounds :
    (left n : ℕ)
    → (ℕ → Outcome (Bool × Option String))
    → Bool × Option String
    → Outcome (Bool × Option String)
deleted_rounds zero n answer last = ok last
deleted_rounds (suc left) n answer last = elim (answer n) [
  | err e ↦ err e
  | panic ↦ panic
  | ok r ↦ let rest = deleted_rounds left (suc n) answer r in if r.0 then ok r else rest
]

unfoldable pub msv_rounds : (left n : ℕ) → (ℕ → Bool) → Bool
msv_rounds zero n answer = false
msv_rounds (suc left) n answer =
    let rest = msv_rounds left (suc n) answer in if answer n then true else rest

-- A claim as it is read: the name of its volume, "" for none, and its identifier.
pub record ClaimObject : Type 0 where
  pub volume_name : String
  pub uid : String

pub record Removal : Type 0 where
  pub claim : Answer ClaimObject
  pub delete : Option String
  pub claim_phase : ℕ → Answer ClaimPhase
  pub volume_phase : ℕ → Answer VolumePhase
  pub msv_deleted : ℕ → Bool

-- RmPVC: what follows a loop, by its last answer.
unfoldable pub after_wait :
    String → Bool × Option String → Outcome (Option String) → Outcome (Option String)
after_wait complaint (deleted, some e) next = ok (some e)
after_wait complaint (true, none) next = next
after_wait complaint (false, none) next = ok (some complaint)

unfoldable pub remove_msv : Removal → ClaimObject → Outcome (Option String)
remove_msv f claim =
    if msv_rounds 360 0 f.msv_deleted
    then ok none
    else ok (some (concat ("mayastor volume not deleted, msv: " ∷ claim.uid ∷ [])))

unfoldable pub wait_volume : Removal → ClaimObject → Outcome (Option String)
wait_volume f claim =
    deleted_rounds 360 0 (λ n. is_pv_deleted claim.volume_name (f.volume_phase n)) (true, none)
    >>= λ last.
        after_wait (concat ("PV not deleted, pv: " ∷ claim.volume_name ∷ [])) last
          (remove_msv f claim)

unfoldable pub remove_volume : Removal → ClaimObject → Outcome (Option String)
remove_volume f claim = if claim.volume_name == "" then remove_msv f claim else wait_volume f claim

unfoldable pub remove_claim :
    (name namespace : String) → Removal → ClaimObject → Outcome (Option String)
remove_claim name namespace f claim =
    deleted_rounds 360 0 (λ n. is_pvc_deleted name namespace (f.claim_phase n)) (false, none)
    >>= λ last.
        after_wait (concat ("pvc not deleted, pvc: " ∷ name ∷ ", namespace: " ∷ namespace ∷ []))
          last (remove_volume f claim)

-- RmPVC, where `is_not_found` is IsNotFound of the API's errors.
unfoldable pub rm_pvc :
    (String → Bool) → (name namespace : String) → Removal → Outcome (Option String)
rm_pvc is_not_found name namespace f = elim f.claim [
  | nil ↦ ok (some (concat ("PVC " ∷ name ∷ " not found, namespace: " ∷ namespace ∷ [])))
  | failed e ↦
      if is_not_found e
      then ok (some (concat ("PVC " ∷ name ∷ " not found error, namespace: " ∷ namespace ∷ [])))
      else ok (
          some (
            concat
              ("failed to get pvc " ∷ name ∷ ", namespace: " ∷ namespace ∷ ", error: " ∷ e ∷ [])))
  | found claim ↦ elim f.delete [
    | some e ↦ ok (
        some (
          concat
            ("failed to delete PVC " ∷ name ∷ ", namespace: " ∷ namespace ∷ ", error: " ∷ e ∷ [])))
    | none ↦ remove_claim name namespace f claim
  ]
]

-- CheckForPVCs: the loop over the namespaces; a list call that fails is passed over.
unfoldable pub any_text : List String → Bool
any_text [] = false
any_text (t ∷ ts) = true

unfoldable pub claims_in : List String → Outcome (List Claim) → Outcome Bool
claims_in classes (ok claims) = claims_of classes claims >>= λ names. ok (any_text names)
claims_in classes (err e) = ok false
claims_in classes panic = panic

unfoldable pub has_claims :
    List String → (String → Outcome (List Claim)) → List String → Outcome Bool
has_claims classes claims [] = ok false
has_claims classes claims (ns ∷ rest) =
    if is_swept ns
    then (claims_in classes (claims ns) >>= λ here.
        has_claims classes claims rest >>= λ there. ok (here || there))
    else has_claims classes claims rest

-- CheckForPVCs, by the names of the product's storage classes and the namespaces.
unfoldable pub check_for_pvcs :
    Outcome (List String)
    → Outcome (List String)
    → (String → Outcome (List Claim))
    → Outcome (Bool × Option String)
check_for_pvcs (err e) namespaces claims = ok (false, some e)
check_for_pvcs panic namespaces claims = panic
check_for_pvcs (ok classes) (err e) claims = ok (false, some e)
check_for_pvcs (ok classes) panic claims = panic
check_for_pvcs (ok classes) (ok namespaces) claims =
    has_claims classes claims namespaces >>= λ b. ok (b, none)

-- CheckForPVs
unfoldable pub check_for_pvs :
    Outcome (List String) → Outcome (List PersistentVolume) → Outcome (Bool × Option String)
check_for_pvs (err e) pvs = ok (false, some e)
check_for_pvs panic pvs = panic
check_for_pvs (ok classes) (err e) = ok (false, some e)
check_for_pvs (ok classes) panic = panic
check_for_pvs (ok classes) (ok pvs) = ok (any_text (volumes_of classes pvs), none)
