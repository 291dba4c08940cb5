-- ===== src/Cluster/Nodes.antt =====
-- The nodes of the cluster (src/common/k8stest/util_node.go): where they are, which of them run the
-- data plane, their labels and their readiness.
pub mod Laws
use mayastor_e2e.Prelude.{
  String, ◌==◌, List, [], ◌∷◌, ◌++◌, Option, none, some, Outcome, ok, err, panic, Bool, true, false,
  not, ◌&&◌, ◌||◌, if◌then◌else◌, concat, ◌>>=◌,
}
use mayastor_e2e.GoMap.{insert}
use mayastor_e2e.Types.{ErrorAccumulator, accumulate, get_error}

pub record NodeLocation : Type 0 where
  pub node_name : String
  pub ip_address : String
  pub mayastor_node : Bool
  pub master_node : Bool

pub data AddressType : Type 0 where
  internal_ip host_name other_address : AddressType

pub data ConditionType : Type 0 where
  node_ready other_condition : ConditionType

pub record NodeAddress : Type 0 where
  pub kind : AddressType
  pub address : String

-- A condition, with the status that the API gives it.
pub record NodeCondition : Type 0 where
  pub kind : ConditionType
  pub reason : String
  pub status : String

pub record Node : Type 0 where
  pub name : String
  pub labels : List (String × String)
  pub addresses : List NodeAddress
  pub taint_keys : List String
  pub conditions : List NodeCondition

-- The loop over the labels.
unfoldable pub is_mayastor_node : List (String × String) → Bool
is_mayastor_node [] = false
is_mayastor_node ((label, value) ∷ labels) =
    (label == "openebs.io/engine" && value == "mayastor") || is_mayastor_node labels

unfoldable pub is_master_node : List (String × String) → Bool
is_master_node [] = false
is_master_node ((label, value) ∷ labels) =
    label == "node-role.kubernetes.io/master" || is_master_node labels

-- The loop over the addresses, which keeps the last of each kind.
unfoldable pub address_of : List NodeAddress → String → String
address_of [] found = found
address_of (a ∷ as_) found =
    address_of as_
      (elim a.kind [ internal_ip ↦ a.address | host_name ↦ found | other_address ↦ found ])

unfoldable pub name_of : List NodeAddress → String → String
name_of [] found = found
name_of (a ∷ as_) found =
    name_of as_
      (elim a.kind [ internal_ip ↦ found | host_name ↦ a.address | other_address ↦ found ])

-- What GetNodeLocs makes of one node: `none` where the name or the address is empty.
unfoldable pub location : Node → Option NodeLocation
location n =
    let name = name_of n.addresses "" in
    let address = address_of n.addresses "" in
    if not (name == "") && not (address == "")
    then some (record {
      node_name = name;
      ip_address = address;
      mayastor_node = is_mayastor_node n.labels;
      master_node = is_master_node n.labels;
    })
    else none

-- The loop of GetNodeLocs.
unfoldable pub locations : List Node → Option (List NodeLocation)
locations [] = some []
locations (n ∷ nodes) =
    let rest = locations nodes in
    elim (location n) [ none ↦ none | some l ↦ elim rest [ none ↦ none | some ls ↦ some (l ∷ ls) ] ]

-- GetNodeLocs, by the nodes that the API server lists, if it does.
unfoldable pub get_node_locs : Option (List Node) → Outcome (List NodeLocation)
get_node_locs none = err "failed to list nodes"
get_node_locs (some nodes) = elim (locations nodes) [
  | none ↦ err "node lacks expected fields"
  | some ls ↦ ok ls
]

-- The loop of GetNodeLocsMap, with the map so far.
unfoldable pub locs_map :
    List NodeLocation → List (String × NodeLocation) → List (String × NodeLocation)
locs_map [] m = m
locs_map (l ∷ ls) m = locs_map ls (insert l.node_name l m)

-- GetNodeLocsMap
unfoldable pub get_node_locs_map : Option (List Node) → Outcome (List (String × NodeLocation))
get_node_locs_map nodes = do ls ← get_node_locs nodes; ok (locs_map ls [])

-- The loop of GetNodeIPAddress.
unfoldable pub address_named : String → List NodeLocation → Option String
address_named name [] = none
address_named name (l ∷ ls) =
    let rest = address_named name ls in if name == l.node_name then some l.ip_address else rest

-- GetNodeIPAddress
unfoldable pub get_node_ip_address : Option (List Node) → String → Outcome String
get_node_ip_address nodes name = do
  ls ← get_node_locs nodes
  elim (address_named name ls) [
    | none ↦ err (concat ("node " ∷ name ∷ " not found" ∷ []))
    | some a ↦ ok a
  ]

-- The loops over the locations that take the addresses, and the names, of the nodes with the data plane.
unfoldable pub mayastor_addresses : List NodeLocation → List String
mayastor_addresses [] = []
mayastor_addresses (l ∷ ls) =
    let rest = mayastor_addresses ls in if l.mayastor_node then l.ip_address ∷ rest else rest

unfoldable pub mayastor_names : List NodeLocation → List String
mayastor_names [] = []
mayastor_names (l ∷ ls) =
    let rest = mayastor_names ls in if l.mayastor_node then l.node_name ∷ rest else rest

-- GetMayastorNodeIPAddresses: none where the nodes are not known.
unfoldable pub get_mayastor_node_ip_addresses : Option (List Node) → List String
get_mayastor_node_ip_addresses nodes = elim (get_node_locs nodes) [
  | ok ls ↦ mayastor_addresses ls
  | err e ↦ []
  | panic ↦ []
]

-- getClusterMayastorNodeIPAddrs, which keeps the error.
unfoldable pub get_cluster_mayastor_node_ip_addrs : Option (List Node) → Outcome (List String)
get_cluster_mayastor_node_ip_addrs nodes = do ls ← get_node_locs nodes; ok (mayastor_addresses ls)

-- GetMayastorNodeNames
unfoldable pub get_mayastor_node_names : Option (List Node) → Outcome (List String)
get_mayastor_node_names nodes = do ls ← get_node_locs nodes; ok (mayastor_names ls)

-- LabelNode, where `kubectl` gives the error of a command.
unfoldable pub label_node :
    (List String → Option String) → (node label value : String) → Option String
label_node kubectl node label value =
    let assign = concat (label ∷ "=" ∷ value ∷ []) in
    elim (kubectl ("label" ∷ "node" ∷ node ∷ assign ∷ "--overwrite=true" ∷ [])) [
      | none ↦ none
      | some e ↦
          some
            (concat ("failed to label node " ∷ node ∷ ", label: " ∷ assign ∷ ", error: " ∷ e ∷ []))
    ]

-- UnlabelNode
unfoldable pub unlabel_node : (List String → Option String) → (node label : String) → Option String
unlabel_node kubectl node label =
    elim (kubectl ("label" ∷ "node" ∷ node ∷ concat (label ∷ "-" ∷ []) ∷ [])) [
      | none ↦ none
      | some e ↦ some (
          concat (
            "failed to remove label from node " ∷ node ∷ ", label: " ∷ label ∷ ", error: " ∷ e
            ∷ []))
    ]

-- The name of the first master, "" where there is none.
unfoldable pub master_name : List NodeLocation → String
master_name [] = ""
master_name (l ∷ ls) = let rest = master_name ls in if l.master_node then l.node_name else rest

-- AllowMasterScheduling and RemoveMasterScheduling.
unfoldable pub allow_master_scheduling :
    (List String → Option String) → Option (List Node) → Option String
allow_master_scheduling kubectl nodes = elim (get_node_locs nodes) [
  | panic ↦ none
  | err e ↦ some (concat ("failed to get nodes, error: " ∷ e ∷ []))
  | ok ls ↦
      elim (kubectl
        ("taint" ∷ "node" ∷ master_name ls ∷ "node-role.kubernetes.io/master:NoSchedule-" ∷ [])) [
          | none ↦ none
          | some e ↦ some (
              concat (
                "failed to remove  no schedule toleration from master node "
                ∷ master_name ls
                ∷ ", error: "
                ∷ e
                ∷ []))
        ]
]

unfoldable pub remove_master_scheduling :
    (List String → Option String) → Option (List Node) → Option String
remove_master_scheduling kubectl nodes = elim (get_node_locs nodes) [
  | panic ↦ none
  | err e ↦ some (concat ("failed to get nodes, error: " ∷ e ∷ []))
  | ok ls ↦
      elim (kubectl
        ("taint" ∷ "node" ∷ master_name ls ∷ "node-role.kubernetes.io/master:NoSchedule" ∷ [])) [
          | none ↦ none
          | some e ↦ some (
              concat (
                "failed to add  no schedule toleration to master node "
                ∷ master_name ls
                ∷ ", error: "
                ∷ e
                ∷ []))
        ]
]

-- The loop of EnsureNodeLabels: the nodes that it labels, and the errors.
unfoldable pub label_workers :
    (String → Option String) → List NodeLocation → ErrorAccumulator → List String × ErrorAccumulator
label_workers label [] errs = ([], errs)
label_workers label (l ∷ ls) errs =
    let rest =
      label_workers label ls
        (if l.master_node then errs else accumulate errs (label l.node_name)) in
    (if l.master_node then rest.0 else l.node_name ∷ rest.0, rest.1)

-- EnsureNodeLabels, with the configured label.
unfoldable pub ensure_node_labels :
    (List String → Option String)
    → (label value : String) → Option (List Node)
    → List String × Option String
ensure_node_labels kubectl label value nodes = elim (get_node_locs nodes) [
  | panic ↦ ([], none)
  | err e ↦ ([], some e)
  | ok ls ↦
      let done = label_workers (λ n. label_node kubectl n label value) ls [] in
      (done.0, get_error done.1)
]

-- IsNodeReady of a node that is given.
unfoldable pub has_master_taint : List String → Bool
has_master_taint [] = false
has_master_taint (key ∷ keys) = key == "node-role.kubernetes.io/master" || has_master_taint keys

unfoldable pub is_ready_kind : ConditionType → Bool
is_ready_kind node_ready = true
is_ready_kind other_condition = false

unfoldable pub ready_condition : Bool → List NodeCondition → Bool
ready_condition master [] = false
ready_condition master (c ∷ cs) =
    ((c.reason == "KubeletReady" && is_ready_kind c.kind) || (master && is_ready_kind c.kind))
    || ready_condition master cs

unfoldable pub is_node_ready : Node → Bool
is_node_ready n = ready_condition (has_master_taint n.taint_keys) n.conditions

-- The loop of AreNodesReady.
unfoldable pub all_ready : List Node → Bool
all_ready [] = true
all_ready (n ∷ nodes) = let rest = all_ready nodes in if is_node_ready n then rest else false

-- AreNodesReady
unfoldable pub are_nodes_ready : Outcome (List Node) → Outcome Bool
are_nodes_ready nodes = do ns ← nodes; ok (all_ready ns)
