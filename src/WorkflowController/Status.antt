-- ===== src/WorkflowController/Status.antt =====
-- `initializeStatus` and `summarize` of internal/controller/workflow_controller.go.
pub mod Summary
pub mod Initial
use kube_task.Base.{
  ℕ, ◌+◌, String, Bool, true, false, not, ◌||◌, Option, none, some, List, [], ◌∷◌, ◌++◌,
  if◌then◌else◌, concat, join_strings, get_or, insert, lookup, nat_eq, String_discrete,
}
use kube_task.Api.{Time, WorkflowPhase, NodePhase, NodeStatus, WorkflowStatus, Workflow}
use kube_task.Dag.{Graph}
use kube_task.WorkflowController.Nodes.{workflow_phase_eq, is_workflow_terminal}
use native.Mathlib.Decide.{ℕ_discrete}

NodeStatus-discrete : Discrete NodeStatus
NodeStatus-discrete = hlevel (String_discrete, ℕ_discrete)

pub nodes-discrete : Discrete (List NodeStatus)
nodes-discrete = hlevel (NodeStatus-discrete)

-- `reflect.DeepEqual` on the nodes. An empty slice and a missing one differ there; the new nodes of
-- an accepted graph are never empty.
abbrev pub same_nodes : List NodeStatus → List NodeStatus → Bool
same_nodes a b = elim (nodes-discrete a b) [ yes _ ↦ true | no _ ↦ false ]

-- Entering `Running` drops what an earlier failure of validation left.
unfoldable pub enter_running : WorkflowStatus → WorkflowStatus
enter_running st =
    if not (workflow_phase_eq st.phase WorkflowPhase.running)
    then record st { phase = WorkflowPhase.running; message = ""; completion_time = none }
    else st

-- The statuses by name; the last one of a name counts.
unfoldable pub index_nodes :
    List (String × NodeStatus) → List NodeStatus → List (String × NodeStatus)
index_nodes m [] = m
index_nodes m (node ∷ nodes) = index_nodes (insert node.name node m) nodes

abbrev pub new_node : String → NodeStatus
new_node name = record {
  name = name;
  phase = NodePhase.pending;
  task_name = "";
  start_time = none;
  completion_time = none;
  message = "";
}

abbrev pub default_phase : NodePhase → NodePhase
default_phase NodePhase.unset = NodePhase.pending
default_phase p = p

unfoldable pub node_for : Option NodeStatus → String → NodeStatus
node_for none name = new_node name
node_for (some node) name = record node { phase = default_phase node.phase }

unfoldable pub ordered_nodes : List (String × NodeStatus) → List String → List NodeStatus
unfolding node_for
ordered_nodes existing [] = []
ordered_nodes existing (name ∷ order) =
    node_for (lookup name existing) name ∷ ordered_nodes existing order

abbrev differs : {A : Type 0} → Option A → Bool
differs none = true
differs (some a) = false

unfoldable pub initialize_status : Time → Workflow → Graph → Workflow × Bool
unfolding enter_running index_nodes ordered_nodes
initialize_status now wf graph =
    let st = wf.status in
    let entered = not (workflow_phase_eq st.phase WorkflowPhase.running) in
    let nodes = ordered_nodes (index_nodes [] st.nodes) graph.order in
    (
      record wf {
        status = record (enter_running st) {
          start_time = some (get_or now st.start_time);
          observed_generation = wf.meta.generation;
          nodes = nodes;
        };
      },
      entered
          || differs st.start_time
          || not (nat_eq st.observed_generation wf.meta.generation)
          || not (same_nodes nodes st.nodes),
    )

pub record Tally : Type 0 where
  pub failed : List String
  pub pending : ℕ

unfoldable pub tally_node : NodePhase → String → Tally → Tally
tally_node NodePhase.failed name t = record t { failed = t.failed ++ name ∷ [] }
tally_node NodePhase.succeeded name t = t
tally_node NodePhase.skipped name t = t
tally_node _ name t = record t { pending = t.pending + 1 }

unfoldable pub tally_nodes : List NodeStatus → Tally → Tally
unfolding tally_node
tally_nodes [] t = t
tally_nodes (node ∷ nodes) t = tally_nodes nodes (tally_node node.phase node.name t)

unfoldable pub conclude : Time → Workflow → List String → Workflow
unfolding concat
conclude now wf [] = record wf {
  status = record (wf.status) {
    completion_time = some now;
    phase = WorkflowPhase.succeeded;
    message = "";
  };
}
conclude now wf (name ∷ names) = record wf {
  status = record (wf.status) {
    completion_time = some now;
    phase = WorkflowPhase.failed;
    message = concat ("nodes failed: " ∷ join_strings ", " (name ∷ names) ∷ []);
  };
}

unfoldable pub summarize : Time → Workflow → Workflow × Bool
unfolding is_workflow_terminal tally_nodes conclude
summarize now wf =
    let t = tally_nodes wf.status.nodes (record { failed = []; pending = 0 }) in
    if is_workflow_terminal wf.status.phase
    then (wf, false)
    else if not (nat_eq t.pending 0)
    then (wf, false)
    else (conclude now wf t.failed, true)
