-- ===== src/WorkflowController/Advance/Accepted.antt =====
-- `advanceNodes` where `Reconcile` calls it: on a spec that `Build` accepted, with the nodes that
-- `initializeStatus` made.
use kube_task.Base.{
  String, Bool, true, false, ◌==◌, List, [], ◌∷◌, elem, Nodup, ◌≡◌, refl, sym, ◌∙◌, ap, subst,
  arith,
}
use kube_task.Api.{Time, NodeStatus, Workflow, WorkflowTask}
use kube_task.Dag.{Graph, graph_deps, accepted, build}
use kube_task.Dag.Build.Spec.{names_of, edges_of, AllDeps}
use kube_task.Dag.Build.Correct.{build_sound, build-Built}
use kube_task.Kube.{Client, done}
use kube_task.WorkflowController.Status.{initialize_status}
use kube_task.WorkflowController.Status.Initial.{
  expected_nodes, name-expected_node, initialize_status-nodes,
}
use kube_task.WorkflowController.Advance.{advance_nodes}
use kube_task.WorkflowController.Advance.Phases.{node_names, phase_of, AllStarted}
use kube_task.WorkflowController.Advance.Starts.{advance_nodes-AllStarted}

edges_of-named :
    (names : List String) (ts : List WorkflowTask) (n d : String)
    → AllDeps names ts
    → elem d (edges_of ts n) ≡ true
    → (d == "") ≡ false
edges_of-named names [] n d v h = cc
edges_of-named names (t ∷ ts) n d v h =
    ground (arith, v.0.nonempty d, edges_of-named names ts n d v.1)

node_names-expected :
    (old : List NodeStatus) (order : List String) → node_names (expected_nodes old order) ≡ order
node_names-expected old [] = refl
node_names-expected old (name ∷ order) =
    cc (name-expected_node old name, node_names-expected old order)

graph_deps-named :
    (quote : String → String) (wf : Workflow) (g : Graph)
    → build quote wf.spec ≡ accepted g
    → (n d : String) → elem d (graph_deps g n) ≡ true
    → (d == "") ≡ false
unfolding graph_deps
graph_deps-named quote wf g ok n d h =
    edges_of-named (names_of wf.spec.tasks) wf.spec.tasks n d
      (build_sound quote wf.spec g ok).0.deps
      (subst (λ l. elem d l ≡ true) ((build-Built quote wf.spec g ok).edges n) h)

initialize_status-Nodup :
    (quote : String → String) (now : Time) (wf : Workflow) (g : Graph)
    → build quote wf.spec ≡ accepted g
    → Nodup (node_names (initialize_status now wf g).0.status.nodes)
initialize_status-Nodup quote now wf g ok =
    subst Nodup
      (sym (
        ap node_names (initialize_status-nodes now wf g)
        ∙ node_names-expected wf.status.nodes g.order))
      (build-Built quote wf.spec g ok).topological.distinct

-- On a spec that `Build` accepts, and after `initializeStatus`, `advanceNodes` starts a pending node
-- only if the phases that it leaves ask for that: a normal node only if all its dependencies
-- succeeded, a failure handler only if all have ended and one failed or was skipped.
pub advance_nodes_accepted :
    {S : Type 0} (client : Client S) (quote : String → String) (now : Time) (wf : Workflow)
    (g : Graph) (st st' : S) (wf' : Workflow) (changed : Bool)
    → build quote wf.spec ≡ accepted g
    → advance_nodes client quote (initialize_status now wf g).0 g st ≡ (done (wf', changed), st')
    → AllStarted g
        (phase_of wf'.status.nodes)
        (initialize_status now wf g).0.status.nodes
        wf'.status.nodes
advance_nodes_accepted client quote now wf g st st' wf' changed ok e =
    advance_nodes-AllStarted client quote (initialize_status now wf g).0 g st st' wf' changed
      (initialize_status-Nodup quote now wf g ok) (graph_deps-named quote wf g ok) e
