-- ===== src/Cluster/NewClaims/Laws.antt =====
-- What MkPVC (src/common/k8stest/util_pvc.go) takes for a success.
use mayastor_e2e.Prelude.{
  ℕ, zero, suc, ◌≡◌, refl, String, none, Outcome, ok, Bool, false, arith, Bool-cases,
}
use mayastor_e2e.Cluster.Claims.{ClaimPhase, VolumePhase, Answer, found, nil, ClaimObject}
use mayastor_e2e.Cluster.NewClaims.{
  get_pvc_status_phase, get_pv_status_phase, is_claim_bound, is_volume_bound, phase_rounds,
  object_rounds, Making, make_msv, make_volume, read_claim, bind_claim, mk_pvc,
}

phase_rounds_readable {ℓ} :
    {A : Type ℓ} (wanted : A → Bool) (left n : ℕ) (answer : ℕ → Outcome A)
    → ((i : ℕ) → (a : A) × (answer i ≡ ok a))
    → phase_rounds wanted left n answer none ≡ ok none
unfolding phase_rounds
phase_rounds_readable wanted zero n answer readable = refl
phase_rounds_readable wanted (suc left) n answer readable =
    let (a, q) = readable n in
    let later = phase_rounds_readable wanted left (suc n) answer readable in
    ground (arith, q, later, Bool-cases (wanted a))

object_rounds_found {ℓ} :
    {A : Type ℓ} (left n : ℕ) (answer : ℕ → Answer A) (a : A) (last : Answer A)
    → answer n ≡ found a
    → object_rounds (suc left) n answer last ≡ found a
unfolding object_rounds
object_rounds_found left n answer a last q = rw (object_rounds, q) refl

claim_readable :
    (name namespace : String) (answer : ℕ → Answer ClaimPhase)
    → ((i : ℕ) → (p : ClaimPhase) × (answer i ≡ found p))
    → (i : ℕ) → (p : ClaimPhase) × (get_pvc_status_phase name namespace (answer i) ≡ ok p)
unfolding get_pvc_status_phase
claim_readable name namespace answer phases i = let (p, q) = phases i in (p, rw q refl)

volume_readable :
    (name : String) (answer : ℕ → Answer VolumePhase)
    → ((i : ℕ) → (p : VolumePhase) × (answer i ≡ found p))
    → (i : ℕ) → (p : VolumePhase) × (get_pv_status_phase name (answer i) ≡ ok p)
unfolding get_pv_status_phase
volume_readable name answer phases i = let (p, q) = phases i in (p, rw q refl)

make_msv_found :
    (f : Making) (claim : ClaimObject)
    → f.msv 0 ≡ found tt
    → f.consistency ≡ none
    → make_msv f claim ≡ ok claim.uid
unfolding make_msv
make_msv_found f claim m d = rw (make_msv, object_rounds_found 359 0 f.msv tt nil m, d) refl

make_volume_found :
    (f : Making) (claim : ClaimObject) (volume : String)
    → f.volume 0 ≡ found volume
    → ((i : ℕ) → (p : VolumePhase) × (f.volume_phase i ≡ found p))
    → make_volume f claim ≡ make_msv f claim
unfolding make_volume
make_volume_found f claim volume v phases =
    rw
      (
        make_volume,
        object_rounds_found 359 0 f.volume volume nil v,
        phase_rounds_readable is_volume_bound 360 0
            (λ n. get_pv_status_phase volume (f.volume_phase n))
            (volume_readable volume f.volume_phase phases),
      )
      refl

bind_claim_found :
    (name namespace : String) (f : Making) (claim : ClaimObject)
    → ((i : ℕ) → (p : ClaimPhase) × (f.claim_phase i ≡ found p))
    → f.claim_again ≡ found claim
    → bind_claim name namespace f ≡ make_volume f claim
unfolding bind_claim read_claim make_volume make_msv
bind_claim_found name namespace f claim phases again =
    rw
      (
        bind_claim,
        phase_rounds_readable is_claim_bound 360 0
            (λ n. get_pvc_status_phase name namespace (f.claim_phase n))
            (claim_readable name namespace f.claim_phase phases),
        again,
      )
      refl

-- Where the claim, its volume and the product's volume are there at once, and every phase can be read,
-- whichever it is, MkPVC reports success: the claim and the volume need not be bound.
pub mk_pvc_unbound :
    (name class namespace volume : String) (f : Making) (claim : ClaimObject)
    → f.create ≡ none
    → f.claim ≡ found claim
    → f.waits_for_consumer ≡ ok false
    → ((i : ℕ) → (p : ClaimPhase) × (f.claim_phase i ≡ found p))
    → f.claim_again ≡ found claim
    → f.volume 0 ≡ found volume
    → ((i : ℕ) → (p : VolumePhase) × (f.volume_phase i ≡ found p))
    → f.msv 0 ≡ found tt
    → f.consistency ≡ none
    → mk_pvc name class namespace f ≡ ok claim.uid
unfolding mk_pvc read_claim
mk_pvc_unbound name class namespace volume f claim a b c phases again v volumes m d =
    let bound = bind_claim_found name namespace f claim phases again in
    let made = make_volume_found f claim volume v volumes in
    let last = make_msv_found f claim m d in ground (arith, a, b, c, bound, made, last)
