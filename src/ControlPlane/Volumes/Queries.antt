-- ===== src/ControlPlane/Volumes/Queries.antt =====
-- The calls of the control plane about volumes (src/common/controlplane/v1/msv_cp.go). The answers to
-- the plugin's commands are arguments, one for each time that a call runs a command.
use mayastor_e2e.Prelude.{
  ℕ, zero, suc, String, ◌==◌, List, [], ◌∷◌, Option, none, some, Outcome, ok, err, panic, Bool,
  true, false, not, concat, if◌then◌else◌, ℤ, pos, negsuc, below_one, ◌>>=◌,
}
use mayastor_e2e.Types.{MayastorVolume, NexusChild, Replica}
use mayastor_e2e.ControlPlane.Plugin.{Plugin, checked, decoded, has_not_found_error}
use mayastor_e2e.ControlPlane.Volumes.{
  MayastorCpVolume, MayastorCpReplica, Children, nexus_children, cp_volume_to_msv,
}

-- scaleMayastorVolume, with the count in decimal.
unfoldable pub scale_mayastor_volume : Plugin → String → String → Outcome (Unit {0})
scale_mayastor_volume plugin uuid count = do
  t ← checked (plugin ("scale" ∷ "volume" ∷ uuid ∷ count ∷ []))
  ok tt

-- DeleteMsv
unfoldable pub delete_msv : String → Outcome (Unit {0})
delete_msv name = err (concat ("delete of mayastor volume not supported " ∷ name ∷ []))

-- `replicas[ix] = r.Node` for every replica, into a slice of texts.
unfoldable pub fill_nodes : List Replica → List String → Outcome (List String)
fill_nodes [] slots = ok slots
fill_nodes (r ∷ rs) [] = panic
fill_nodes (r ∷ rs) (s ∷ slots) = do rest ← fill_nodes rs slots; ok (r.node ∷ rest)

-- `make([]string, n)`
unfoldable pub empty_slots : ℕ → List String
empty_slots zero = []
empty_slots (suc n) = "" ∷ empty_slots n

unfoldable pub make_slots : ℤ → Outcome (List String)
make_slots (pos n) = ok (empty_slots n)
make_slots (negsuc n) = panic

-- The loop of CheckAllMayastorVolumesAreHealthy.
unfoldable pub all_online : List MayastorCpVolume → Bool
all_online [] = true
all_online (v ∷ vs) = let rest = all_online vs in if v.state.status == "Online" then rest else false

-- The loop of ListMsvs.
unfoldable pub msvs_of :
    (String → Outcome MayastorCpReplica) → List MayastorCpVolume → Outcome (List MayastorVolume)
msvs_of get [] = ok []
msvs_of get (v ∷ vs) =
    let others = msvs_of get vs in
    cp_volume_to_msv get v >>= λ msv. others >>= λ msvs. ok (msv ∷ msvs)

module _ (json : String → Option MayastorCpVolume) where
  -- GetMayastorCpVolume
  unfoldable pub get_mayastor_cp_volume : Plugin → String → Outcome MayastorCpVolume
  get_mayastor_cp_volume plugin uuid =
      decoded json (checked (plugin ("-ojson" ∷ "get" ∷ "volume" ∷ uuid ∷ [])))

  -- GetMayastorVolumeState
  unfoldable pub get_mayastor_volume_state : Plugin → String → Outcome String
  get_mayastor_volume_state plugin uuid = do
    v ← get_mayastor_cp_volume plugin uuid
    ok v.state.status

  -- GetMayastorVolumeChildren
  unfoldable pub get_mayastor_volume_children : Plugin → String → Outcome (List Children)
  get_mayastor_volume_children plugin uuid = do
    v ← get_mayastor_cp_volume plugin uuid
    ok v.state.target.children

  -- GetMayastorVolumeChildState
  unfoldable pub get_mayastor_volume_child_state : Plugin → String → Outcome String
  get_mayastor_volume_child_state plugin uuid = do
    v ← get_mayastor_cp_volume plugin uuid
    ok v.state.target.state

  -- GetMsvNexusChildren
  unfoldable pub get_msv_nexus_children : Plugin → String → Outcome (List NexusChild)
  get_msv_nexus_children plugin uuid = do
    cs ← get_mayastor_volume_children plugin uuid
    ok (nexus_children cs)

  -- IsMayastorVolumePublished
  unfoldable pub is_mayastor_volume_published : Plugin → String → Bool
  is_mayastor_volume_published plugin uuid = elim (get_mayastor_cp_volume plugin uuid) [
    | ok v ↦ not (v.spec.target.node == "")
    | err e ↦ false
    | panic ↦ false
  ]

  -- IsMayastorVolumeDeleted
  unfoldable pub is_mayastor_volume_deleted : (String → Option String) → Plugin → String → Bool
  is_mayastor_volume_deleted find_submatch plugin uuid = elim (get_mayastor_cp_volume plugin uuid) [
    | ok v ↦ v.spec.uuid == ""
    | err e ↦ has_not_found_error find_submatch e
    | panic ↦ false
  ]

  module _ (get : String → Outcome MayastorCpReplica) where
    -- The end of GetMSV, once there is a volume. `state` stands for the text of the state in the error.
    unfoldable pub msv_of : String → String → MayastorCpVolume → Outcome (Option MayastorVolume)
    msv_of state count v =
        if v.spec.uuid == ""
        then ok none
        else if v.state.status == "pending"
        then ok none
        else if v.state.status == ""
        then err (concat ("GetMSV: state not defined, got msv.Status=\"" ∷ state ∷ "\"" ∷ []))
        else if below_one v.spec.num_replicas
        then err (concat ("GetMSV: msv.Spec.Num_replicas=\"" ∷ count ∷ "\"" ∷ []))
        else (cp_volume_to_msv get v >>= λ msv. ok (some msv))

    -- GetMSV, where `print_state` and `print_count` are what `%v` prints. The pointer may be nil.
    unfoldable pub get_msv :
        (MayastorCpVolume → String)
        → (ℤ → String)
        → Plugin
        → String
        → Outcome (Option MayastorVolume)
    get_msv print_state print_count plugin uuid = elim (get_mayastor_cp_volume plugin uuid) [
      | ok v ↦ msv_of (print_state v) (print_count v.spec.num_replicas) v
      | err e ↦ err (concat ("GetMSV: " ∷ e ∷ []))
      | panic ↦ panic
    ]

    -- GetMsvReplicas: a nil volume is dereferenced.
    unfoldable pub get_msv_replicas :
        (MayastorCpVolume → String) → (ℤ → String) → Plugin → String → Outcome (List Replica)
    get_msv_replicas print_state print_count plugin uuid = do
      found ← get_msv print_state print_count plugin uuid
      elim found [ none ↦ panic | some msv ↦ ok msv.status.replicas ]

    -- GetMsvNodes, whose two commands answer as `first` and `second`. A nil slice is `none`.
    unfoldable pub get_msv_nodes :
        (MayastorCpVolume → String)
        → (ℤ → String)
        → (first second : Plugin) → String
        → Outcome (String × Option (List String))
    get_msv_nodes print_state print_count first second uuid =
        elim (get_mayastor_cp_volume first uuid) [
          | panic ↦ panic
          | err e ↦ ok ("", none)
          | ok v ↦ make_slots v.spec.num_replicas >>= λ slots.
              elim (get_msv_replicas print_state print_count second uuid) [
                | panic ↦ panic
                | err e ↦ ok (v.state.target.node, none)
                | ok rs ↦ fill_nodes rs slots >>= λ nodes. ok (v.state.target.node, some nodes)
              ]
        ]

module _ (json : String → Option (List MayastorCpVolume)) (plugin : Plugin) where
  -- ListMayastorCpVolumes
  unfoldable pub list_mayastor_cp_volumes : Outcome (List MayastorCpVolume)
  list_mayastor_cp_volumes = decoded json (checked (plugin ("-ojson" ∷ "get" ∷ "volumes" ∷ [])))

  -- CheckForMayastorVolumes
  unfoldable pub check_for_mayastor_volumes : Outcome Bool
  check_for_mayastor_volumes = do
    l ← list_mayastor_cp_volumes
    elim l [ [] ↦ ok false | v ∷ vs ↦ ok true ]

  -- CheckAllMayastorVolumesAreHealthy
  unfoldable pub check_all_mayastor_volumes_are_healthy : Outcome (Unit {0})
  check_all_mayastor_volumes_are_healthy = do
    l ← list_mayastor_cp_volumes
    (if all_online l
        then ok tt
        else err "CheckAllMayastorVolumesAreHealth: all MSVs were not healthy")

  -- ListMsvs
  unfoldable pub list_msvs : (String → Outcome MayastorCpReplica) → Outcome (List MayastorVolume)
  list_msvs get = do l ← list_mayastor_cp_volumes; msvs_of get l
