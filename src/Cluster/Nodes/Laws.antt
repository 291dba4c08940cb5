-- ===== src/Cluster/Nodes/Laws.antt =====
-- What the functions on nodes (src/common/k8stest/util_node.go) give for every cluster.
use mayastor_e2e.Prelude.{
  ◌≡◌, refl, ap, subst, sym, ok, ◌≢◌, ◌↔◌, String, eq_iff, List, [], ◌∷◌, ◌++◌, Option, none, some,
  Bool, true, false, arith, if◌then◌else◌, All,
}
use mayastor_e2e.GoMap.{lookup, insert, lookup-insert}
use mayastor_e2e.Types.{ErrorAccumulator, accumulate, accumulate_empty}
use mayastor_e2e.Cluster.Nodes.{
  Node, NodeLocation, NodeCondition, locs_map, get_node_locs, get_node_locs_map, label_workers,
  ready_condition, is_node_ready, all_ready, is_ready_kind, has_master_taint, node_ready,
}

-- No two nodes of the list have the same name.
abbrev pub Fresh : String → List NodeLocation → Type 0
Fresh name ls = All (λ (l : NodeLocation). l.node_name ≢ name) ls

abbrev pub DistinctNames : List NodeLocation → Type 0
DistinctNames [] = Unit
DistinctNames (l ∷ ls) = Fresh l.node_name ls × DistinctNames ls

locs_map_other :
    (name : String) (ls : List NodeLocation) (m : List (String × NodeLocation))
    → Fresh name ls
    → lookup name (locs_map ls m) ≡ lookup name m
unfolding locs_map
locs_map_other name [] m fresh = refl
locs_map_other name (l ∷ ls) m fresh = ground (
  arith,
  locs_map_other name ls (insert l.node_name l m) fresh.1,
  lookup-insert l.node_name name l m,
  eq_iff l.node_name name,
  fresh.0,
)

-- A map into which the nodes have been put, one after the other, gives each of them back.
locs_map_has :
    (ls rs : List NodeLocation) (l : NodeLocation) (m : List (String × NodeLocation))
    → DistinctNames (ls ++ (l ∷ rs))
    → lookup l.node_name (locs_map (ls ++ (l ∷ rs)) m) ≡ some l
unfolding locs_map
locs_map_has [] rs l m d = ground (
  arith,
  locs_map_other l.node_name rs (insert l.node_name l m) d.0,
  lookup-insert l.node_name l.node_name l m,
  eq_iff l.node_name l.node_name,
)
locs_map_has (x ∷ ls) rs l m d = locs_map_has ls rs l (insert x.node_name x m) d.1

-- Where GetNodeLocs gives a list in which no two nodes have the same name, GetNodeLocsMap gives a map:
-- under the name of each node of the list it has that node, and under any other name nothing.
pub lookup-get_node_locs_map :
    (nodes : Option (List Node)) (ls : List NodeLocation)
    → get_node_locs nodes ≡ ok ls
    → DistinctNames ls
    → (m : List (String × NodeLocation)) × (get_node_locs_map nodes ≡ ok m)
      × ((before after : List NodeLocation) (l : NodeLocation)
          → ls ≡ before ++ (l ∷ after)
          → lookup l.node_name m ≡ some l)
      × ((name : String) → Fresh name ls → lookup name m ≡ none)
unfolding get_node_locs_map lookup
lookup-get_node_locs_map nodes ls listed distinct = (
  locs_map ls [],
  rw (get_node_locs_map, listed) refl,
  λ before after l q.
      subst (λ (k : List NodeLocation). lookup l.node_name (locs_map k []) ≡ some l) (sym q)
        (locs_map_has before after l [] (subst DistinctNames q distinct)),
  λ name fresh. locs_map_other name ls [] fresh,
)

-- The workers, whose names EnsureNodeLabels labels.
abbrev pub worker_names : List NodeLocation → List String
worker_names [] = []
worker_names (l ∷ ls) = if l.master_node then worker_names ls else l.node_name ∷ worker_names ls

-- EnsureNodeLabels labels every node but the masters, in the order of the list, whichever of the
-- commands fail; and where nothing is accumulated each of them has succeeded.
pub label_workers_lem :
    (label : String → Option String) (ls : List NodeLocation) (errs : ErrorAccumulator)
    → (((label_workers label ls errs).0 ≡ worker_names ls)
        × ((label_workers label ls errs).1 ≡ []
            → ((errs ≡ []) × All (λ (n : String). label n ≡ none) (worker_names ls))))
unfolding label_workers
label_workers_lem label [] errs = (refl, λ h. (h, tt))
label_workers_lem label (l ∷ ls) errs = go l.master_node (label_workers_lem label ls)
  where
    go :
        (b : Bool)
        → ((es : ErrorAccumulator)
            → (((label_workers label ls es).0 ≡ worker_names ls)
                × ((label_workers label ls es).1 ≡ []
                    → ((es ≡ []) × All (λ (n : String). label n ≡ none) (worker_names ls)))))
        → (((if b
                then (label_workers label ls
                    (if b then errs else accumulate errs (label l.node_name))).0
                else l.node_name
                  ∷ (label_workers label ls
                      (if b then errs else accumulate errs (label l.node_name))).0)
              ≡ (if b then worker_names ls else l.node_name ∷ worker_names ls))
            × ((label_workers label ls (if b then errs else accumulate errs (label l.node_name))).1
                  ≡ []
                → ((errs ≡ [])
                    × All
                        (λ (n : String). label n ≡ none)
                        (if b then worker_names ls else l.node_name ∷ worker_names ls))))
    go true ih = ih errs
    go false ih =
        let r = ih (accumulate errs (label l.node_name)) in
        (
          ap (λ (ns : List String). l.node_name ∷ ns) r.0,
          λ h.
              let p = accumulate_empty errs (label l.node_name) (r.1 h).0 in
              (p.0, (p.1, (r.1 h).1)),
        )

-- AreNodesReady says that all nodes are ready only where IsNodeReady says so of each.
pub all_ready_lem :
    (nodes : List Node) → all_ready nodes ≡ true ↔ All (λ (n : Node). is_node_ready n ≡ true) nodes
unfolding all_ready
all_ready_lem [] = (λ h. tt, λ h. refl)
all_ready_lem (n ∷ nodes) = go (is_node_ready n) refl (all_ready_lem nodes)
  where
    go :
        (b : Bool)
        → is_node_ready n ≡ b
        → (all_ready nodes ≡ true ↔ All (λ (m : Node). is_node_ready m ≡ true) nodes)
        → (if is_node_ready n then all_ready nodes else false) ≡ true
          ↔ ((is_node_ready n ≡ true) × All (λ (m : Node). is_node_ready m ≡ true) nodes)
    go true e ih = rw e ((λ h. (refl, ih.0 h)), (λ h. ih.1 h.1))
    go false e ih = rw e ((λ h. cc h), (λ h. cc h.0))

ready_condition_master :
    (ds es : List NodeCondition) (c : NodeCondition)
    → c.kind ≡ node_ready
    → ready_condition true (ds ++ (c ∷ es)) ≡ true
unfolding ready_condition is_ready_kind
ready_condition_master [] es c ready = ground (arith, ready)
ready_condition_master (d ∷ ds) es c ready = ground (arith, ready_condition_master ds es c ready)

-- IsNodeReady calls a node with the taint of a master ready as soon as it has a condition of the kind
-- Ready, whatever the status and the reason of that condition are.
pub is_node_ready_master :
    (n : Node) (before after : List NodeCondition) (c : NodeCondition)
    → has_master_taint n.taint_keys ≡ true
    → c.kind ≡ node_ready
    → n.conditions ≡ before ++ (c ∷ after)
    → is_node_ready n ≡ true
unfolding is_node_ready
is_node_ready_master n before after c master ready conditions =
    rw (master, conditions) (ready_condition_master before after c ready)
