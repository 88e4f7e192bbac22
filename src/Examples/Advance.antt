-- ===== src/Examples/Advance.antt =====
-- The workflow controller at the workflow of two nodes.
use Prim.Native.Nat.{max}
use kube_task.Base.{
  cases-if, ◌==◌, ◌≤◌, String, true, false, none, some, List, [], ◌∷◌, ◌==◌, elem, ◌≡◌, refl, arith,
  pos, String_discrete, concat, Nodup, if◌then◌else◌,
}
use kube_task.Api.{
  Task, NodePhase, WorkflowPhase, NodeStatus, WorkflowStatus, Workflow, empty_spec, empty_status,
  empty_meta,
}
use kube_task.Dag.{graph_task, graph_deps, child_task_name}
use kube_task.Tenant.{set_namespace}
use kube_task.Kube.{Client, Call, done, no_requeue}
use kube_task.WorkflowController.Nodes.{
  decide_node, choose_action, gather_dep, gather_deps, sync_node_from_task, mark_node_running,
  is_workflow_terminal,
}
use kube_task.WorkflowController.Nodes.Decide.{decide_node-action, expected_action}
use kube_task.WorkflowController.Status.{
  new_node, initialize_status, enter_running, index_nodes, ordered_nodes, node_for, summarize,
}
use kube_task.WorkflowController.Status.Initial.{
  expected_nodes, initialize_status-nodes, initialize_status_again,
}
use kube_task.WorkflowController.Status.Summary.{expected_phase, all_ended, summarize-phase}
use kube_task.WorkflowController.Children.{
  list_child_tasks, index_children, create_child_task, child_task_spec, chosen_spec, run_once,
  new_child, is_own_child, workflow_label, workflow_node_label,
}
use kube_task.WorkflowController.Advance.{
  advance_nodes, close_pass, both_passes, sweep_nodes, visit_running, visit_pending, pass_over,
  first_sweep, act_on, start_node, with_child, after_create, after_pass, phases_of, record_started,
  with_nodes, count_running,
}
use kube_task.WorkflowController.Advance.Phases.{node_names, phase_of, AllStarted}
use kube_task.WorkflowController.Advance.Starts.{advance_nodes-AllStarted}
use kube_task.WorkflowController.Advance.Accepted.{advance_nodes_accepted}
use kube_task.WorkflowController.Advance.Limit.{advance_nodes-le_max_parallel}
use kube_task.WorkflowController.Advance.Moves.{AllMoved, advance_nodes-AllMoved}
use kube_task.WorkflowController.Reconcile.{
  reconcile, handle_deletion, delete_child, delete_children, drop_finalizer, workflow_finalizer,
}
use kube_task.WorkflowController.Reconcile.Ended.{
  Over, KeptOver, reconcile_ended, Cleaned, handle_deletion-Cleaned,
}
use kube_task.Examples.Cluster.{cluster}
use kube_task.Examples.Workflows.{
  quote, release_spec, release_graph, deploy_task, build-is_empty, release-accepted,
}

abbrev pub status_of : List NodeStatus → WorkflowStatus
status_of nodes = record {
  phase = WorkflowPhase.running;
  message = "";
  start_time = some (pos 0);
  completion_time = none;
  observed_generation = 0;
  nodes = nodes;
}

abbrev pub release_with : List NodeStatus → Workflow
release_with nodes = record {
  meta = record (empty_meta "release" []) { finalizers = workflow_finalizer ∷ [] };
  spec = release_spec;
  status = status_of nodes;
}

abbrev pub some_task : Task
some_task = record { meta = empty_meta "other" []; spec = empty_spec; status = empty_status }

-- Both nodes are pending.
abbrev pub release : Workflow
release = release_with (new_node "build" ∷ new_node "deploy" ∷ [])

abbrev server : Client (List Task)
server = cluster release some_task

-- `build` runs.
abbrev release_running : Workflow
release_running = release_with (
    record (new_node "build") {
      phase = NodePhase.running;
      task_name = "release-build";
      start_time = some (pos 0);
    }
    ∷ new_node "deploy"
    ∷ [])

release-advanced :
    advance_nodes server quote release release_graph []
    ≡ (done (release_running, true), new_child release release_graph "build" ∷ [])
unfolding advance_nodes close_pass both_passes sweep_nodes visit_running visit_pending pass_over
    first_sweep act_on start_node with_child after_create after_pass phases_of record_started
    with_nodes count_running decide_node choose_action gather_dep gather_deps sync_node_from_task
    mark_node_running list_child_tasks index_children create_child_task child_task_spec chosen_spec
    run_once new_child is_own_child child_task_name graph_task graph_deps set_namespace concat
    String_discrete
release-advanced = refl

advance_nodes-le_max_parallel_example :
    count_running release_running.status.nodes ≤ max 1 (count_running release.status.nodes)
advance_nodes-le_max_parallel_example =
    advance_nodes-le_max_parallel server quote release release_graph []
      (new_child release release_graph "build" ∷ []) release_running true (omega arith)
      release-advanced

advance_nodes-AllMoved_example : AllMoved release.status.nodes release_running.status.nodes
advance_nodes-AllMoved_example =
    advance_nodes-AllMoved server quote release release_graph []
      (new_child release release_graph "build" ∷ []) release_running true release-advanced

-- `build` has succeeded, and `deploy` starts.
abbrev built_node : NodeStatus
built_node = record (new_node "build") { phase = NodePhase.succeeded; task_name = "release-build" }

abbrev release_built : Workflow
release_built = release_with (built_node ∷ new_node "deploy" ∷ [])

abbrev release_deploying : Workflow
release_deploying = release_with (
    built_node
    ∷ record (new_node "deploy") {
      phase = NodePhase.running;
      task_name = "release-deploy";
      start_time = some (pos 0);
    }
    ∷ [])

release_built-advanced :
    advance_nodes server quote release_built release_graph []
    ≡ (done (release_deploying, true), new_child release_built release_graph "deploy" ∷ [])
unfolding advance_nodes close_pass both_passes sweep_nodes visit_running visit_pending pass_over
    first_sweep act_on start_node with_child after_create after_pass phases_of record_started
    with_nodes count_running decide_node choose_action gather_dep gather_deps sync_node_from_task
    mark_node_running list_child_tasks index_children create_child_task child_task_spec chosen_spec
    run_once new_child is_own_child child_task_name graph_task graph_deps set_namespace concat
    String_discrete
release_built-advanced = refl

release_built-Nodup : Nodup (node_names release_built.status.nodes)
unfolding String_discrete
release_built-Nodup = (refl, (refl, tt))

release_graph-named :
    (n d : String) → elem d (graph_deps release_graph n) ≡ true → (d == "") ≡ false
unfolding graph_deps
release_graph-named n d h = ground (arith, build-is_empty)

advance_nodes-AllStarted_example :
    AllStarted release_graph
      (phase_of release_deploying.status.nodes)
      release_built.status.nodes
      release_deploying.status.nodes
advance_nodes-AllStarted_example =
    advance_nodes-AllStarted server quote release_built release_graph []
      (new_child release_built release_graph "deploy" ∷ []) release_deploying true
      release_built-Nodup release_graph-named release_built-advanced

-- The first reconciliation: no node has a status yet.
abbrev initialized : Workflow
initialized = (initialize_status (pos 0) (release_with []) release_graph).0

initialized-advanced :
    advance_nodes server quote initialized release_graph []
    ≡ (done (release_running, true), new_child release release_graph "build" ∷ [])
unfolding advance_nodes close_pass both_passes sweep_nodes visit_running visit_pending pass_over
    first_sweep act_on start_node with_child after_create after_pass phases_of record_started
    with_nodes count_running decide_node choose_action gather_dep gather_deps sync_node_from_task
    mark_node_running list_child_tasks index_children create_child_task child_task_spec chosen_spec
    run_once new_child is_own_child child_task_name graph_task graph_deps set_namespace concat
    String_discrete initialize_status enter_running index_nodes ordered_nodes node_for
initialized-advanced = refl

advance_nodes_accepted_example :
    AllStarted release_graph
      (phase_of release_running.status.nodes)
      (initialize_status (pos 0) (release_with []) release_graph).0.status.nodes
      release_running.status.nodes
advance_nodes_accepted_example =
    advance_nodes_accepted server quote (pos 0) (release_with []) release_graph []
      (new_child release release_graph "build" ∷ []) release_running true release-accepted
      initialized-advanced

-- `build` has succeeded.
abbrev after_build : String → NodePhase
after_build name = if name == "build" then NodePhase.succeeded else NodePhase.pending

deploy-found : graph_task release_graph "deploy" ≡ some deploy_task
unfolding graph_task String_discrete
deploy-found = refl

deploy-named : (d : String) → elem d (graph_deps release_graph "deploy") ≡ true → (d == "") ≡ false
unfolding graph_deps
deploy-named d h = ground (arith, build-is_empty)

decide_node-action_example :
    (decide_node quote release_graph after_build "deploy").0
    ≡ expected_action false after_build (graph_deps release_graph "deploy")
decide_node-action_example =
    decide_node-action quote release_graph after_build "deploy" deploy_task deploy-found
      deploy-named

initialize_status-nodes_example :
    (initialize_status (pos 0) (release_with []) release_graph).0.status.nodes
    ≡ expected_nodes [] ("build" ∷ "deploy" ∷ [])
initialize_status-nodes_example = initialize_status-nodes (pos 0) (release_with []) release_graph

release-Nodup : Nodup release_graph.order
unfolding String_discrete
release-Nodup = (refl, (refl, tt))

initialize_status_again_example :
    initialize_status
      (pos 5)
      (initialize_status (pos 0) (release_with []) release_graph).0
      release_graph
    ≡ ((initialize_status (pos 0) (release_with []) release_graph).0, false)
initialize_status_again_example =
    initialize_status_again (pos 0) (pos 5) (release_with []) release_graph release-Nodup

release_running-goes_on : is_workflow_terminal release_running.status.phase ≡ false
unfolding is_workflow_terminal
release_running-goes_on = refl

summarize-phase_example :
    ((summarize (pos 0) release_running).0.status.phase
      ≡ expected_phase release_running.status.nodes WorkflowPhase.running)
    × ((summarize (pos 0) release_running).1 ≡ all_ended release_running.status.nodes)
summarize-phase_example = summarize-phase (pos 0) release_running release_running-goes_on

-- The workflow has ended.
abbrev released : Workflow
released = record release { status = record (status_of []) { phase = WorkflowPhase.succeeded } }

abbrev released_server : Client (List Task)
released_server = cluster released some_task

released-found : (released_server.get_workflow "release" []).0 ≡ done released
unfolding String_discrete
released-found = refl

abbrev NoTasks : List Task → Type 0
NoTasks tasks = tasks ≡ []

released_server-KeptOver : KeptOver released_server quote released NoTasks
released_server-KeptOver = record {
  get_workflow = λ name s p.
      cases-if (λ (call : Call (List Task) Workflow). NoTasks (call s).1)
        (released.meta.name == name) (λ is. p) (λ isnt. p);
  update_workflow = λ w s p. p;
  update_status = λ w s h n p. p;
}

reconcile_ended_example : NoTasks (reconcile released_server quote "release" []).1
reconcile_ended_example =
    reconcile_ended released_server quote NoTasks "release" released [] released_server-KeptOver
      released-found refl (Over.succeeded refl) refl

-- A child of the workflow that the list still shows and that the API server no longer finds.
abbrev gone_child : Task
gone_child = record some_task {
  meta =
      record (empty_meta "release-build"
        ((workflow_label, "release") ∷ (workflow_node_label, "build") ∷ [])) {
          finalizers = released.meta.uid ∷ [];
        };
}

released-listed :
    (list_child_tasks released_server quote released (gone_child ∷ [])).0
    ≡ done (("release-build", gone_child) ∷ [])
unfolding list_child_tasks index_children is_own_child String_discrete
released-listed = refl

released-cleaned :
    (handle_deletion released_server quote released (gone_child ∷ [])).0 ≡ done no_requeue
unfolding handle_deletion list_child_tasks index_children is_own_child delete_children delete_child
    drop_finalizer String_discrete
released-cleaned = refl

handle_deletion-Cleaned_example : Cleaned released_server quote released (gone_child ∷ [])
handle_deletion-Cleaned_example =
    handle_deletion-Cleaned released_server quote released (gone_child ∷ []) released-cleaned
