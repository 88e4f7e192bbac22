-- ===== src/WorkflowController/Status/Initial.antt =====
-- What `initializeStatus` makes of the nodes.
use kube_task.Base.{
  String, Bool, true, false, Option, none, some, List, [], ◌∷◌, ◌==◌, elem, Nodup, if◌then◌else◌,
  insert, lookup, lookup-insert, ◌≡◌, refl, ◌∙◌, ap, arith,
}
use kube_task.Api.{Time, NodeStatus, Workflow}
use kube_task.Dag.{Graph}
use kube_task.WorkflowController.Status.{
  nodes-discrete, same_nodes, enter_running, index_nodes, new_node, default_phase, node_for,
  ordered_nodes, initialize_status,
}

-- The last status of a node.
abbrev pub last_status : String → List NodeStatus → Option NodeStatus
last_status name [] = none
last_status name (node ∷ nodes) = elim (last_status name nodes) [
  | some found ↦ some found
  | none ↦ if node.name == name then some node else none
]

-- The status that a workflow starts a node with: the one it has already, or pending.
abbrev pub expected_node : List NodeStatus → String → NodeStatus
expected_node old name = elim (last_status name old) [
  | some node ↦ record node { phase = default_phase node.phase }
  | none ↦ new_node name
]

abbrev pub expected_nodes : List NodeStatus → List String → List NodeStatus
expected_nodes old [] = []
expected_nodes old (name ∷ order) = expected_node old name ∷ expected_nodes old order

abbrev or_else : Option NodeStatus → Option NodeStatus → Option NodeStatus
or_else (some r) q = some r
or_else none q = q

index_nodes_lem :
    (name : String) (nodes : List NodeStatus) (m : List (String × NodeStatus))
    → lookup name (index_nodes m nodes) ≡ or_else (last_status name nodes) (lookup name m)
unfolding index_nodes
index_nodes_lem name [] m = refl
index_nodes_lem name (node ∷ nodes) m = ground (
  arith,
  index_nodes_lem name nodes (insert node.name node m),
  lookup-insert node.name name node m,
)

ordered_nodes_lem :
    (old : List NodeStatus) (order : List String)
    → ordered_nodes (index_nodes [] old) order ≡ expected_nodes old order
unfolding ordered_nodes node_for
ordered_nodes_lem old [] = refl
ordered_nodes_lem old (name ∷ order) =
    ground (arith, index_nodes_lem name old [], ordered_nodes_lem old order)

-- `initializeStatus` gives the workflow one node for each name of the graph's order, in that order:
-- the node's last status if there is one, pending if its phase is unset, and a new pending node
-- otherwise.
pub initialize_status-nodes :
    (now : Time) (wf : Workflow) (graph : Graph)
    → (initialize_status now wf graph).0.status.nodes ≡ expected_nodes wf.status.nodes graph.order
unfolding initialize_status
initialize_status-nodes now wf graph = ordered_nodes_lem wf.status.nodes graph.order

last_status-name :
    (name : String) (nodes : List NodeStatus) (node : NodeStatus)
    → last_status name nodes ≡ some node
    → node.name ≡ name
last_status-name name [] node h = ground arith
last_status-name name (n ∷ nodes) node h = ground (arith, last_status-name name nodes node)

abbrev from_status : String → Option NodeStatus → NodeStatus
from_status name (some node) = record node { phase = default_phase node.phase }
from_status name none = new_node name

name-from_status :
    (name : String) (o : Option NodeStatus)
    → ((node : NodeStatus) → o ≡ some node → node.name ≡ name)
    → (from_status name o).name ≡ name
name-from_status name none h = refl
name-from_status name (some node) h = h node refl

expected_node_lem :
    (old : List NodeStatus) (name : String)
    → expected_node old name ≡ from_status name (last_status name old)
expected_node_lem old name = ground arith

pub name-expected_node :
    (old : List NodeStatus) (name : String) → (expected_node old name).name ≡ name
name-expected_node old name =
    ap (λ n. n.name) (expected_node_lem old name)
    ∙ name-from_status name (last_status name old) (last_status-name name old)

last_status_absent :
    (old : List NodeStatus) (name : String) (order : List String)
    → elem name order ≡ false
    → last_status name (expected_nodes old order) ≡ none
last_status_absent old name [] h = refl
last_status_absent old name (n ∷ order) h =
    ground (arith, last_status_absent old name order, name-expected_node old n)

last_status_present :
    (old : List NodeStatus) (name : String) (order : List String)
    → Nodup order
    → elem name order ≡ true
    → last_status name (expected_nodes old order) ≡ some (expected_node old name)
last_status_present old name [] d h = cc
last_status_present old name (n ∷ order) d h = ground (
  arith,
  last_status_absent old n order d.0,
  last_status_present old name order d.1,
  name-expected_node old n,
)

expected_node_again :
    (big old : List NodeStatus) (name : String)
    → last_status name big ≡ some (expected_node old name)
    → expected_node big name ≡ expected_node old name
expected_node_again big old name h = ground arith

expected_nodes_again :
    (big old : List NodeStatus) (order : List String)
    → ((name : String)
        → elem name order ≡ true
        → last_status name big ≡ some (expected_node old name))
    → expected_nodes big order ≡ expected_nodes old order
expected_nodes_again big old [] h = refl
expected_nodes_again big old (n ∷ order) h = ground (
  arith,
  expected_node_again big old n (h n (ground arith)),
  expected_nodes_again big old order (λ m k. h m (ground arith)),
)

same_nodes_refl : (nodes : List NodeStatus) → same_nodes nodes nodes ≡ true
same_nodes_refl nodes =
    elim (nodes-discrete nodes nodes)
      as (λ d. elim d as (λ _. Bool) [ yes _ ↦ true | no _ ↦ false ] ≡ true) [
        | yes _ ↦ refl
        | no n ↦ absurd (n refl)
      ]

nodes_again :
    (old : List NodeStatus) (order : List String)
    → Nodup order
    → expected_nodes (expected_nodes old order) order ≡ expected_nodes old order
nodes_again old order d =
    expected_nodes_again (expected_nodes old order) old order
      (λ name h. last_status_present old name order d h)

-- Where the graph's order has no name twice, a second `initializeStatus` changes nothing and says so.
pub initialize_status_again :
    (now later : Time) (wf : Workflow) (graph : Graph)
    → Nodup graph.order
    → initialize_status later (initialize_status now wf graph).0 graph
      ≡ ((initialize_status now wf graph).0, false)
unfolding initialize_status enter_running
initialize_status_again now later wf graph d =
    let nodes = ordered_nodes (index_nodes [] wf.status.nodes) graph.order in
    ground (
      arith,
      ordered_nodes_lem wf.status.nodes graph.order,
      ordered_nodes_lem nodes graph.order,
      nodes_again wf.status.nodes graph.order d,
      same_nodes_refl nodes,
    )
