-- ===== src/Cluster/Addresses.antt =====
-- The addresses that the control plane is asked at (src/common/k8stest/msv.go): they are set once, before
-- the first call about a volume, and every call goes through controlplane.go.
use mayastor_e2e.Prelude.{
  ◌≡◌, ◌∙◌, String, List, [], ◌∷◌, Option, Outcome, ok, err, panic, Bool, true, false,
  if◌then◌else◌, arith, Bool-cases,
}
use mayastor_e2e.ControlPlane.{State, set_ip_node_addresses, make_control_plane, ask}
use mayastor_e2e.Cluster.Nodes.{Node, NodeLocation, get_node_locs}

-- The sync.Once of msv.go, and the state of the control plane.
pub record Setup : Type 0 where
  pub done : Bool
  pub control_plane : State

-- The loop over the locations that takes the addresses of the masters.
unfoldable pub master_addresses : List NodeLocation → List String
master_addresses [] = []
master_addresses (l ∷ ls) =
    let rest = master_addresses ls in if l.master_node then l.ip_address ∷ rest else rest

-- The addresses where the locations are known, and none where they are not.
abbrev pub addresses_or_none : Outcome (List NodeLocation) → List String
addresses_or_none (ok ls) = master_addresses ls
addresses_or_none (err e) = []
addresses_or_none panic = []

-- EnsureNodeAddressesAreSet, where `nodes` is what the API server lists: its error is logged.
unfoldable pub ensure_node_addresses_are_set : Option (List Node) → Setup → Setup
ensure_node_addresses_are_set nodes s = if s.done then s else record {
  done = true;
  control_plane = set_ip_node_addresses (addresses_or_none (get_node_locs nodes)) s.control_plane;
}

-- GetMSV and the other functions of msv.go: the addresses are made sure of, and the control plane is
-- asked by its function.
unfoldable pub call_msv {ℓ} :
    {A : Type ℓ}
    → String
    → Option (List Node)
    → (List String → Outcome A)
    → Setup
    → Outcome A × Setup
call_msv version nodes method s =
    let ready = ensure_node_addresses_are_set nodes s in
    let answer = ask version method ready.control_plane in
    (answer.0, record ready { control_plane = answer.1 })

ask_addresses {ℓ} :
    {A : Type ℓ} (version : String) (method : List String → Outcome A) (s : State)
    → (ask version method s).1.node_ip_addresses ≡ s.node_ip_addresses
unfolding ask make_control_plane
ask_addresses version method s = ground (arith, Bool-cases s.done)

-- The addresses are those of the first call: where the nodes could not be listed then, every later call
-- asks at no address at all, whatever the API server lists by that time.
pub call_msv_addresses {ℓ κ} :
    {A : Type ℓ} {B : Type κ} (version : String) (first second : Option (List Node))
    (m : List String → Outcome A) (n : List String → Outcome B) (s : Setup)
    → s.done ≡ false
    → (call_msv version second n (call_msv version first m s).1).1.control_plane.node_ip_addresses
      ≡ addresses_or_none (get_node_locs first)
unfolding call_msv ensure_node_addresses_are_set set_ip_node_addresses
call_msv_addresses version first second m n s fresh =
    let once = ensure_node_addresses_are_set first s in
    ask_addresses version n
      (ensure_node_addresses_are_set second
        (record once { control_plane = (ask version m once.control_plane).1 })).control_plane
    ∙ ground (arith, fresh, ask_addresses version m once.control_plane)
