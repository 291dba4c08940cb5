-- ===== src/Cluster/Cleanup.antt =====
-- The sweep of a cluster (src/common/k8stest/util_cleanup.go): what is deleted, how long it is waited
-- for, and which errors count. The API server's answers are parameters; a call that is repeated takes the
-- n-th answer at its n-th time.
pub mod Laws
use mayastor_e2e.Prelude.{
  ℕ, zero, suc, ◌+◌, String, ◌==◌, List, [], ◌∷◌, ◌++◌, Option, none, some, Outcome, ok, err, panic,
  Bool, true, false, not, ◌&&◌, ◌||◌, if◌then◌else◌, eqb, length, ◌>>=◌, has_prefix, ℤ, pos, negsuc,
}
use mayastor_e2e.Types.{ErrorAccumulator, accumulate, get_error}

pub record StorageClass : Type 0 where
  pub name : String
  pub provisioner : String

-- A claim or a persistent volume, with the name of its storage class; that of a claim may be nil.
pub record Claim : Type 0 where
  pub name : String
  pub class : Option String

pub record PersistentVolume : Type 0 where
  pub name : String
  pub class : String
  pub finalizers : List String

-- getMayastorScMap: the names of the product's storage classes.
unfoldable pub mayastor_classes : String → List StorageClass → List String
mayastor_classes provisioner [] = []
mayastor_classes provisioner (sc ∷ scs) =
    let rest = mayastor_classes provisioner scs in
    if sc.provisioner == provisioner then sc.name ∷ rest else rest

-- `mayastorStorageClasses[name]`
unfoldable pub is_class : List String → String → Bool
is_class [] name = false
is_class (c ∷ cs) name = c == name || is_class cs name

-- The loops over the claims that go on where the class is another: the names of the rest.
unfoldable pub claims_of : List String → List Claim → Outcome (List String)
claims_of classes [] = ok []
claims_of classes (c ∷ cs) = elim c.class [
  | none ↦ panic
  | some class ↦ claims_of classes cs >>= λ names.
      ok (if is_class classes class then c.name ∷ names else names)
]

unfoldable pub volumes_of : List String → List PersistentVolume → List String
volumes_of classes [] = []
volumes_of classes (v ∷ vs) =
    let rest = volumes_of classes vs in if is_class classes v.class then v.name ∷ rest else rest

-- The volumes whose finalizers DeleteAllPvs removes.
unfoldable pub finalized_of : List String → List PersistentVolume → List String
finalized_of classes [] = []
finalized_of classes (v ∷ vs) =
    let rest = finalized_of classes vs in
    if is_class classes v.class
    then (elim v.finalizers [ [] ↦ rest | f ∷ fs ↦ v.name ∷ rest ])
    else rest

-- The loops that wait for the resources to go: `left` seconds to go, `n` answers read, and the number
-- of the last round, which is 0 where the listing failed.
unfoldable pub wait_gone {ℓ} :
    {A : Type ℓ} (count : List A → Outcome ℕ) (left n : ℕ) (listing : ℕ → Outcome (List A))
    (last : ℕ)
    → Outcome ℕ
wait_gone count zero n listing last = ok last
wait_gone count (suc left) n listing last = elim (listing n) [
  | panic ↦ panic
  | err e ↦ wait_gone count left (suc n) listing 0
  | ok l ↦ count l >>= λ k.
      let rest = wait_gone count left (suc n) listing k in if eqb k 0 then ok 0 else rest
]

-- What a sweep has deleted, the number of resources left, and the error.
pub record Sweep : Type 0 where
  pub deleted : List String
  pub left : ℤ
  pub error : Option String

abbrev pub count_claims : List String → List Claim → Outcome ℕ
count_claims classes l = claims_of classes l >>= λ names. ok (length names)

-- DeleteAllPvcs, by the classes and the listings of a namespace's claims.
unfoldable pub delete_all_pvcs : Outcome (List String) → (ℕ → Outcome (List Claim)) → Outcome Sweep
delete_all_pvcs panic listing = panic
delete_all_pvcs (err e) listing = ok (record { deleted = []; left = negsuc 0; error = some e })
delete_all_pvcs (ok classes) listing = elim (listing 0) [
  | panic ↦ panic
  | err e ↦ wait_gone (count_claims classes) 120 1 listing 0 >>= λ k.
      ok (record { deleted = []; left = pos k; error = some e })
  | ok l ↦ claims_of classes l >>= λ names.
      wait_gone (count_claims classes) 120 1 listing 0 >>= λ k.
      ok (record { deleted = names; left = pos k; error = none })
]

abbrev pub count_volumes : List String → List PersistentVolume → Outcome ℕ
count_volumes classes l = ok (length (volumes_of classes l))

-- DeleteAllPvs after its first wait, which makes no difference to the result: the second list call,
-- the deletions and the second wait. `first` and `second` are the listings of the two waits.
unfoldable pub delete_pvs_left :
    List String
    → Outcome (List PersistentVolume)
    → ℕ
    → (ℕ → Outcome (List PersistentVolume))
    → Outcome Sweep
delete_pvs_left classes panic before second = panic
delete_pvs_left classes (err e) before second =
    wait_gone (count_volumes classes) 120 0 second before >>= λ k.
    ok (record { deleted = []; left = pos k; error = some e })
delete_pvs_left classes (ok l) before second =
    wait_gone (count_volumes classes) 120 0 second before >>= λ k.
    ok (record { deleted = volumes_of classes l; left = pos k; error = none })

-- DeleteAllPvs: the volumes whose finalizers are removed, and the sweep.
unfoldable pub delete_all_pvs :
    Outcome (List String)
    → (initial relisted : Outcome (List PersistentVolume))
    → (first second : ℕ → Outcome (List PersistentVolume)) → Outcome (List String × Sweep)
delete_all_pvs panic initial relisted first second = panic
delete_all_pvs (err e) initial relisted first second =
    ok ([], record { deleted = []; left = negsuc 0; error = some e })
delete_all_pvs (ok classes) initial relisted first second =
    wait_gone (count_volumes classes) 120 0 first 0 >>= λ before.
    delete_pvs_left classes relisted before second >>= λ s.
    ok ((elim initial [ ok l ↦ finalized_of classes l | err e ↦ [] | panic ↦ [] ]), s)

-- What the API server answers when a pool is read, and when it is updated.
pub data PoolGet : Type 0 where
  pool_found : List String → PoolGet
  pool_not_found : PoolGet
  pool_error : String → PoolGet

pub data PoolUpdate : Type 0 where
  updated conflict gone : PoolUpdate
  refused : String → PoolUpdate

-- The loop of deletePoolFinalizer with `left` rounds to go.
unfoldable pub finalizer_rounds : (left n : ℕ) → (ℕ → PoolGet × PoolUpdate) → Outcome Bool
finalizer_rounds zero n answer = err "failed to remove pool finalizer (conflict)"
finalizer_rounds (suc left) n answer = elim (answer n).0 [
  | pool_not_found ↦ ok false
  | pool_error e ↦ err e
  | pool_found fs ↦ elim fs [
    | [] ↦ ok false
    | f ∷ rest ↦ elim (answer n).1 [
      | updated ↦ ok true
      | conflict ↦ finalizer_rounds left (suc n) answer
      | gone ↦ ok false
      | refused e ↦ err e
    ]
  ]
]

-- deletePoolFinalizer: the rounds at 1, 6, 11, 16, 21 and 26 seconds.
unfoldable pub delete_pool_finalizer : (ℕ → PoolGet × PoolUpdate) → Outcome Bool
delete_pool_finalizer answer = finalizer_rounds 6 0 answer

-- The loop of DeleteAllPoolFinalizers, over the names of the pools.
unfoldable pub delete_finalizers :
    (String → ℕ → PoolGet × PoolUpdate)
    → List String
    → Bool
    → ErrorAccumulator
    → Bool × ErrorAccumulator
delete_finalizers answer [] deleted errs = (deleted, errs)
delete_finalizers answer (p ∷ ps) deleted errs = elim (delete_pool_finalizer (answer p)) [
  | panic ↦ delete_finalizers answer ps deleted errs
  | err e ↦ delete_finalizers answer ps deleted (accumulate errs (some e))
  | ok d ↦ delete_finalizers answer ps (deleted || d) errs
]

-- DeleteAllPoolFinalizers
unfoldable pub delete_all_pool_finalizers :
    (String → ℕ → PoolGet × PoolUpdate) → Outcome (List String) → Bool × Option String
delete_all_pool_finalizers answer panic = (false, none)
delete_all_pool_finalizers answer (err e) = (false, some e)
delete_all_pool_finalizers answer (ok pools) =
    let done = delete_finalizers answer pools false [] in (done.0, get_error done.1)

abbrev pub listed_or : ℕ → Outcome (List String) → ℕ
listed_or last (ok l) = length l
listed_or last (err e) = last
listed_or last panic = last

-- The loop of DeleteAllPools, which ends as soon as the number it has is 0: it has 0 also before any
-- listing has succeeded.
unfoldable pub pool_rounds : (left n : ℕ) → (ℕ → Outcome (List String)) → ℕ → ℕ
pool_rounds zero n listing last = last
pool_rounds (suc left) n listing last =
    let now = listed_or last (listing n) in
    let rest = pool_rounds left (suc n) listing now in if eqb now 0 then now else rest

-- DeleteAllPools, by the names that list calls give: the pools that it deletes, and whether none are left.
unfoldable pub delete_all_pools : (ℕ → Outcome (List String)) → List String × Bool
delete_all_pools listing =
    ((elim (listing 0) [ ok l ↦ l | err e ↦ [] | panic ↦ [] ]), eqb (pool_rounds 120 1 listing 0) 0)

-- DeleteAllDeployments and DeleteAllPods: the number of those listed, all of which are deleted.
unfoldable pub delete_all : Outcome (List String) → List String × ℕ × Option String
delete_all (ok l) = (l, length l, none)
delete_all (err e) = ([], 0, some e)
delete_all panic = ([], 0, none)

-- MayastorUndeletedPodCount, by whether the namespace is known and by its pods.
unfoldable pub undeleted_pod_count : Bool → Outcome (List String) → ℤ
undeleted_pod_count false pods = negsuc 0
undeleted_pod_count true (ok l) = pos (length l)
undeleted_pod_count true (err e) = negsuc 0
undeleted_pod_count true panic = negsuc 0

-- What CleanUp meets: the namespaces, the errors of the sweeps of each, and of its other steps.
pub record CleanUpFacts : Type 0 where
  pub namespaces : Outcome (List String)
  pub deployments : String → Option String
  pub pods : String → Option String
  pub pvcs : String → Option String
  pub pvs : Option String
  pub msvs : Option String
  pub storage_classes : Option String
  pub removal : String → Option String
  pub node_labels : Option String

-- A namespace of the tests, and one that is swept: NSE2EPrefix and NSDefault.
unfoldable pub is_test_namespace : String → Bool
is_test_namespace ns = has_prefix "e2e-maya" ns

unfoldable pub is_swept : String → Bool
is_swept ns = is_test_namespace ns || ns == "default"

unfoldable pub sweep_errors : CleanUpFacts → List String → ErrorAccumulator → ErrorAccumulator
sweep_errors f [] errs = errs
sweep_errors f (ns ∷ rest) errs = sweep_errors f rest (
    if is_swept ns
    then accumulate (accumulate (accumulate errs (f.deployments ns)) (f.pods ns)) (f.pvcs ns)
    else errs)

unfoldable pub removal_errors : CleanUpFacts → List String → ErrorAccumulator → ErrorAccumulator
removal_errors f [] errs = errs
removal_errors f (ns ∷ rest) errs =
    removal_errors f rest (if is_test_namespace ns then accumulate errs (f.removal ns) else errs)

-- The namespaces that CleanUp goes through: none where the list call fails.
abbrev pub known : Outcome (List String) → List String
known (ok l) = l
known (err e) = []
known panic = []

abbrev pub error_of {ℓ} : {A : Type ℓ} → Outcome A → Option String
error_of (ok a) = none
error_of (err e) = some e
error_of panic = none

abbrev pub is_empty : ErrorAccumulator → Bool
is_empty [] = true
is_empty (e ∷ es) = false

-- CleanUp. The errors of the removal of the pools' finalizers are logged, and do not count.
unfoldable pub clean_up : CleanUpFacts → Bool
clean_up f =
    let swept = sweep_errors f (known f.namespaces) (accumulate [] (error_of f.namespaces)) in
    let volumes = accumulate (accumulate (accumulate swept f.pvs) f.msvs) f.storage_classes in
    let errs = accumulate (removal_errors f (known f.namespaces) volumes) f.node_labels in
    is_empty errs
