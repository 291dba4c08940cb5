-- ===== src/ControlPlane/Nodes.antt =====
-- Nodes of the control plane (src/common/controlplane/v1/msn_cp.go).
use mayastor_e2e.Prelude.{
  String, List, [], ◌∷◌, Option, Outcome, ok, err, panic, concat, map, ◌>>=◌,
}
use mayastor_e2e.Types.{MayastorNode}
use mayastor_e2e.ControlPlane.Plugin.{Plugin, checked, decoded}

pub record MsnSpec : Type 0 where
  pub grpc_endpoint : String
  pub id : String

pub record MsnState : Type 0 where
  pub grpc_endpoint : String
  pub id : String
  pub status : String

pub record MayastorCpNode : Type 0 where
  pub spec : MsnSpec
  pub state : MsnState

-- cpNodeToMsn
unfoldable pub cp_node_to_msn : MayastorCpNode → MayastorNode
cp_node_to_msn n = record {
  name = n.spec.id;
  spec = record { id = n.spec.id; grpc_endpoint = n.spec.grpc_endpoint };
  state = record {
    id = n.state.id;
    status = n.state.status;
    grpc_endpoint = n.state.grpc_endpoint;
  };
}

module _ (json : String → Option MayastorCpNode) (plugin : Plugin) where
  -- GetMayastorCpNode
  unfoldable pub get_mayastor_cp_node : String → Outcome MayastorCpNode
  get_mayastor_cp_node name =
      decoded json (checked (plugin ("-ojson" ∷ "get" ∷ "node" ∷ name ∷ [])))

  -- GetMayastorNodeStatus
  unfoldable pub get_mayastor_node_status : String → Outcome String
  get_mayastor_node_status name = do n ← get_mayastor_cp_node name; ok n.state.status

  -- GetMSN
  unfoldable pub get_msn : String → Outcome MayastorNode
  get_msn name = elim (get_mayastor_cp_node name) [
    | ok n ↦ ok (cp_node_to_msn n)
    | err e ↦ err (concat ("GetMSN: " ∷ e ∷ []))
    | panic ↦ panic
  ]

  -- GetMsNodeStatus
  unfoldable pub get_ms_node_status : String → Outcome String
  get_ms_node_status name = elim (get_mayastor_cp_node name) [
    | ok n ↦ ok n.state.status
    | err e ↦ err (concat ("GetMsNodeStatus: " ∷ e ∷ []))
    | panic ↦ panic
  ]

module _ (json : String → Option (List MayastorCpNode)) (plugin : Plugin) where
  -- ListMayastorCpNodes
  unfoldable pub list_mayastor_cp_nodes : Outcome (List MayastorCpNode)
  list_mayastor_cp_nodes = decoded json (checked (plugin ("-ojson" ∷ "get" ∷ "nodes" ∷ [])))

  -- ListMsns
  unfoldable pub list_msns : Outcome (List MayastorNode)
  list_msns = do l ← list_mayastor_cp_nodes; ok (map cp_node_to_msn l)
