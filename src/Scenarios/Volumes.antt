-- ===== src/Scenarios/Volumes.antt =====
-- The properties of the control plane's volumes and pools at concrete inputs.
use mayastor_e2e.Prelude.{
  All, ◌≡◌, refl, ok, err, panic, ◌-◌, ◌≤◌, ◌<◌, String, List, [], ◌∷◌, ◌++◌, Option, some, none,
  false, if◌then◌else◌, Outcome, text_differs, pos, contains,
}
use mayastor_e2e.Types.{MayastorVolume}
use mayastor_e2e.ControlPlane.{State, ask, is_supported}
use mayastor_e2e.ControlPlane.Plugin.{Plugin, checked, decoded}
use mayastor_e2e.ControlPlane.MadeVolumes.{IsReadable, MadeFrom, ReadFrom, get_msv_lem}
use mayastor_e2e.ControlPlane.Volumes.{
  ReplicaTopology, MayastorCpVolume, MayastorCpReplica, replicas_of, replica_of, volume_with,
  no_volume, cp_volume_to_msv,
}
use mayastor_e2e.ControlPlane.Volumes.Queries.{
  get_mayastor_cp_volume, get_msv, msv_of, get_msv_replicas, get_msv_nodes, empty_slots,
}
use mayastor_e2e.ControlPlane.Laws.{get_msv_nodes_lem, replica_nodes, ask_lem, IsMade}

-- A volume with the replica r1.
abbrev volume : MayastorCpVolume
volume = record {
  spec = record {
    num_replicas = pos 1;
    size = pos 64;
    status = "Created";
    target = record { protocol = "nvmf"; node = "w1" };
    uuid = "v1";
  };
  state = record {
    target = record {
      children = [];
      device_uri = "nvmf://v1";
      node = "w1";
      rebuilds = pos 0;
      protocol = "nvmf";
      size = pos 64;
      state = "Online";
      uuid = "v1";
    };
    size = pos 64;
    status = "Online";
    uuid = "v1";
    replica_topology = ("r1", record { node = "w1"; pool = "p1"; state = "Online" }) ∷ [];
  };
}

abbrev stored : MayastorCpReplica
stored = record {
  node = "w1";
  pool = "p1";
  share = "nvmf";
  size = pos 64;
  state = "Online";
  thin = false;
  uri = "nvmf://r1";
  uuid = "r1";
}

abbrev decode : String → Option MayastorCpVolume
decode t = some volume

abbrev fetch : String → Outcome MayastorCpReplica
fetch uuid = ok stored

abbrev plugin : Plugin
plugin args = record { text = "{}"; error = none }

abbrev printed {ℓ} : {A : Type ℓ} → A → String
printed a = "-"

get_msv_lem_example :
    (All (IsReadable fetch) volume.state.replica_topology
      → (msv : MayastorVolume) × (get_msv decode fetch printed printed plugin "v1" ≡ ok (some msv))
        × MadeFrom volume msv
        × ReadFrom fetch volume.state.replica_topology msv.status.replicas)
    × ((before after : List (String × ReplicaTopology)) (u e : String) (t : ReplicaTopology)
        → volume.state.replica_topology ≡ before ++ ((u, t) ∷ after)
        → All (IsReadable fetch) before
        → fetch u ≡ err e
        → get_msv decode fetch printed printed plugin "v1" ≡ ok (some no_volume))
unfolding get_mayastor_cp_volume decoded checked contains
get_msv_lem_example =
    get_msv_lem fetch decode printed printed plugin "v1" volume refl (text_differs "v1" "" refl)
      (text_differs "Online" "pending" refl) (text_differs "Online" "" refl) refl

get_msv_nodes_lem_example :
    (1 < 1 → get_msv_nodes decode fetch printed printed plugin plugin "v1" ≡ panic)
    × (1 ≤ 1
        → get_msv_nodes decode fetch printed printed plugin plugin "v1"
          ≡ ok ("w1", some (replica_nodes (replica_of stored ∷ []) ++ empty_slots (1 - 1))))
unfolding get_mayastor_cp_volume decoded checked contains get_msv_replicas get_msv msv_of
    cp_volume_to_msv replicas_of volume_with
get_msv_nodes_lem_example =
    get_msv_nodes_lem decode fetch printed printed plugin plugin "v1" volume 1
      (replica_of stored ∷ []) refl refl refl

abbrev fresh : State
fresh = record { done = false; made = false; node_ip_addresses = "10.0.0.1" ∷ [] }

abbrev first_address : List String → Outcome String
first_address [] = err "mayastor nodes not found"
first_address (a ∷ as_) = ok a

ask_lem_example :
    ((ask "1.0.0" first_address fresh).0
      ≡ (if is_supported "1.0.0" then first_address fresh.node_ip_addresses else panic))
    × IsMade "1.0.0" (ask "1.0.0" first_address fresh).1
ask_lem_example = ask_lem "1.0.0" first_address fresh (λ e. cc e)
