-- ===== src/ControlPlane.antt =====
-- The control plane of the product under test, as the tests reach it (src/common/controlplane/
-- controlplane.go and v1/controlplane_v1.go): the one object that answers, and the names it gives
-- to the states of the resources.
pub mod Plugin
pub mod Nodes
pub mod Pools
pub mod Volumes
pub mod Laws
pub mod MadeVolumes
use mayastor_e2e.Prelude.{
  ℕ, zero, suc, String, List, [], ◌∷◌, Outcome, ok, panic, Bool, true, false, ◌||◌, if◌then◌else◌,
  Option, none, some, contains, before, atoi, is_one, ℤ, pos,
}

-- What getControlPlane keeps: whether its sync.Once has run, whether that has made the object of
-- version 1, and the addresses of the nodes that the object reads.
pub record State : Type 0 where
  pub done : Bool
  pub made : Bool
  pub node_ip_addresses : List String

-- SetIpNodeAddresses
unfoldable pub set_ip_node_addresses : List String → State → State
set_ip_node_addresses address s = record s { node_ip_addresses = address }

-- Whether the version that is configured has a control plane: its text before the first dot is 1.
unfoldable pub is_supported : String → Bool
is_supported version = elim (atoi (before b'.' version)) [
  | none ↦ false
  | some major ↦ is_one major
]

-- The body of the sync.Once.
unfoldable pub make_control_plane : String → State → State
make_control_plane version s =
    if s.done then s else record s { done = true; made = is_supported version }

-- A function of controlplane.go that calls a method of getControlPlane(): the body of the sync.Once
-- panics where there is no such control plane, and once it has, the object is nil.
unfoldable pub ask {ℓ} :
    {A : Type ℓ} → String → (List String → Outcome A) → State → Outcome A × State
ask version method s =
    let next = make_control_plane version s in
    (if next.made then method next.node_ip_addresses else panic, next)

-- IsTimeoutError, at the text of the error. The two expressions are texts as they stand.
unfoldable pub is_timeout_error : String → Bool
is_timeout_error str = contains str "Request Timeout" || contains str "request timed out"

-- MspGrpcStateToCrdState
unfoldable pub msp_grpc_state_to_crd_state : ℤ → String
msp_grpc_state_to_crd_state (pos zero) = "Pending"
msp_grpc_state_to_crd_state (pos (suc zero)) = "Online"
msp_grpc_state_to_crd_state (pos (suc (suc zero))) = "Degraded"
msp_grpc_state_to_crd_state (pos (suc (suc (suc zero)))) = "Faulted"
msp_grpc_state_to_crd_state other = "Offline"

-- The names of the states in ControlPlaneInterface.
pub record StateNames : Type 0 where
  pub vol_state_healthy : String
  pub vol_state_degraded : String
  pub child_state_unknown : String
  pub child_state_online : String
  pub child_state_degraded : String
  pub child_state_faulted : String
  pub nexus_state_unknown : String
  pub nexus_state_online : String
  pub nexus_state_degraded : String
  pub nexus_state_faulted : String
  pub msp_state_online : String
  pub node_state_offline : String
  pub node_state_online : String
  pub node_state_unknown : String
  pub node_state_empty : String

-- Those of version 1.
unfoldable pub state_names : StateNames
state_names = record {
  vol_state_healthy = "Online";
  vol_state_degraded = "Degraded";
  child_state_unknown = "Unknown";
  child_state_online = "Online";
  child_state_degraded = "Degraded";
  child_state_faulted = "Faulted";
  nexus_state_unknown = "Unknown";
  nexus_state_online = "Online";
  nexus_state_degraded = "Degraded";
  nexus_state_faulted = "Faulted";
  msp_state_online = "Online";
  node_state_offline = "Offline";
  node_state_online = "Online";
  node_state_unknown = "Unknown";
  node_state_empty = "";
}
