-- ===== src/Http/WorkflowHandler.antt =====
-- internal/api/handler/workflow_handler.go and workflow_graph.go. `quote` stands for the verb `%q`
-- of package fmt, `describe` for the text of an error.
pub mod Nodes
use kube_task.Base.{
  String, Bool, false, Option, none, some, List, [], ◌∷◌, ◌++◌, ◌==◌, if◌then◌else◌, map, insert,
  lookup, delete_key, concat,
}
use kube_task.Api.{Workflow, WorkflowSpec, WorkflowTask, NodeStatus, NodePhase}
use kube_task.Kube.{Error}
use kube_task.Dag.Accessors.{Graph}
use kube_task.Dag.Validate.{Checked, accepted, rejected, ValidationError, ◌>>=◌, reason_text}
use kube_task.Dag.Build.{build, validate_child_task_names}
use kube_task.Http.Request.{
  Submission, Bound, bound, malformed, Request, ListQuery, Objects, GraphNode, GraphEdge,
  WorkflowGraph, Body, Response, json, handle, lookup_failure, server_failure,
}
use kube_task.Http.Tenancy.{
  prepare_tenant_create, tenant_list_options, get_tenant_object, tenant_delete_options,
}
use kube_task.Http.Statistics.{filter_workflows}
use kube_task.Http.Pages.{query_page, query_workflow_page_size, page_of}

abbrev pub workflow_not_found : String
workflow_not_found = "workflow not found"

abbrev pub StatusMap : Type 0
StatusMap = List (String × NodeStatus)

-- `node.Phase == ""`
abbrev pub shown_phase : NodePhase → NodePhase
shown_phase NodePhase.unset = NodePhase.pending
shown_phase p = p

unfoldable pub new_workflow_graph_node : String → List String → Bool → Option NodeStatus → GraphNode
new_workflow_graph_node name depends_on run_on_failure none = record {
  name = name;
  depends_on = depends_on;
  run_on_failure = run_on_failure;
  phase = NodePhase.pending;
  task_name = "";
  start_time = none;
  completion_time = none;
  message = "";
}
new_workflow_graph_node name depends_on run_on_failure (some status) = record {
  name = name;
  depends_on = depends_on;
  run_on_failure = run_on_failure;
  phase = shown_phase status.phase;
  task_name = status.task_name;
  start_time = status.start_time;
  completion_time = status.completion_time;
  message = status.message;
}

unfoldable pub status_by_node : StatusMap → List NodeStatus → StatusMap
status_by_node m [] = m
status_by_node m (node ∷ nodes) = status_by_node (insert node.name node m) nodes

-- The nodes of the spec; what is left of the map has the nodes that the spec no longer has.
unfoldable pub spec_nodes : StatusMap → List WorkflowTask → List GraphNode × StatusMap
unfolding new_workflow_graph_node
spec_nodes m [] = ([], m)
spec_nodes m (t ∷ ts) =
    let (rest, left) = spec_nodes (delete_key t.name m) ts in
    (new_workflow_graph_node t.name t.depends_on t.run_on_failure (lookup t.name m) ∷ rest, left)

unfoldable pub orphan_nodes : StatusMap → List NodeStatus → List GraphNode
unfolding new_workflow_graph_node
orphan_nodes m [] = []
orphan_nodes m (node ∷ nodes) =
    let rest = orphan_nodes (delete_key node.name m) nodes in
    let same = orphan_nodes m nodes in
    elim (lookup node.name m) [
      | none ↦ same
      | some status ↦ new_workflow_graph_node status.name [] false (some status) ∷ rest
    ]

unfoldable pub graph_edges : List WorkflowTask → List GraphEdge
graph_edges [] = []
graph_edges (t ∷ ts) =
    map (λ dep. record { source = dep; target = t.name }) t.depends_on ++ graph_edges ts

abbrev pub validation_text : ValidationError → String
validation_text e = concat (reason_text e.reason ∷ ": " ∷ e.message ∷ [])

module _ (quote : String → String) where
  unfoldable pub build_workflow_graph : Workflow → WorkflowGraph
  unfolding status_by_node spec_nodes orphan_nodes graph_edges build
  build_workflow_graph w =
      let (nodes, left) = spec_nodes (status_by_node [] w.status.nodes) w.spec.tasks in
      let graph : WorkflowGraph = record {
        nodes = nodes ++ orphan_nodes left w.status.nodes;
        edges = graph_edges w.spec.tasks;
        order = [];
        levels = [];
        validation_error = "";
      } in
      elim (build quote w.spec) [
        | rejected e ↦ record graph { validation_error = validation_text e }
        | accepted g ↦ record graph { order = g.order; levels = g.levels }
      ]

  unfoldable pub validate_workflow_spec : String → WorkflowSpec → Checked (Unit {0})
  unfolding build validate_child_task_names
  validate_workflow_spec name spec = build quote spec >>= λ graph.
      if name == "" then accepted tt else validate_child_task_names name graph

-- The answers to an error of the creation; `rejects` is the text of `IsInvalid` or `IsBadRequest`.
abbrev pub create_workflow_failure :
    (rejects : Error → Bool) → (describe : Error → String) → Error → Response
create_workflow_failure rejects describe Error.already_exists =
    json 409 (Body.error "workflow already exists")
create_workflow_failure rejects describe e =
    if rejects e then json 400 (Body.error (describe e)) else json 500 (Body.error (describe e))

abbrev pub workflow_created : Workflow → Response
workflow_created w = record {
  status = 201;
  body = Body.workflow w;
  audit = some (w.meta.name, w.meta.uid);
}

abbrev pub default_workflow : Submission Workflow → Submission Workflow
default_workflow s = record s {
  api_version = if s.api_version == "" then "kubetask.kubetask.io/v1" else s.api_version;
  kind = if s.kind == "" then "Workflow" else s.kind;
  generate_name = if s.object.meta.name == "" then "workflow-" else s.generate_name;
}

module _ {S : Type 0} (objects : Objects S Workflow) (describe : Error → String) where
  unfoldable pub with_workflow : Request → (Workflow → S → Response × S) → S → Response × S
  unfolding handle get_tenant_object lookup_failure
  with_workflow request next =
      handle (get_tenant_object objects (λ w. w.meta) request.namespace request.name)
        (lookup_failure describe workflow_not_found) next

  module _ (quote : String → String) (rejects : Error → Bool) where
    submit_workflow : String → Submission Workflow → S → Response × S
    unfolding handle prepare_tenant_create
    submit_workflow namespace s =
        let w = s.object in
        let prepared = record w { meta = prepare_tenant_create namespace w.meta } in
        handle (objects.create (record s { object = prepared }))
          (create_workflow_failure rejects describe) (λ w' s'. (workflow_created w', s'))

    unfoldable pub create_workflow : Request → Bound (Submission Workflow) → S → Response × S
    unfolding validate_workflow_spec submit_workflow
    create_workflow request (malformed text) s = (json 400 (Body.error text), s)
    create_workflow request (bound submission) s =
        let filled = default_workflow submission in
        elim (validate_workflow_spec quote filled.object.meta.name filled.object.spec) [
          | rejected e ↦ (json 400 (Body.reasoned_error e.message (reason_text e.reason)), s)
          | accepted _ ↦ submit_workflow request.namespace filled s
        ]

  unfoldable pub list_workflows : Request → ListQuery → S → Response × S
  unfolding handle tenant_list_options server_failure filter_workflows page_of
  list_workflows request query =
      handle (objects.list (tenant_list_options request.namespace)) (server_failure describe)
        (λ workflows s. (page_response workflows, s))
    where
      page_response : List Workflow → Response
      page_response workflows =
          elim (page_of (query_page query.page) (query_workflow_page_size query.page_size)
            (filter_workflows query.phase workflows)) [
              | none ↦ json 500 Body.recovered
              | some page ↦ json 200 (Body.workflow_page page)
            ]

  unfoldable pub get_workflow : (quote : String → String) → Request → S → Response × S
  unfolding with_workflow build_workflow_graph
  get_workflow quote request =
      with_workflow request
        (λ w s. (json 200 (Body.workflow_detail w (build_workflow_graph quote w)), s))

  unfoldable pub delete_workflow : Request → S → Response × S
  unfolding with_workflow handle tenant_delete_options lookup_failure
  delete_workflow request = with_workflow request (λ w.
      handle (objects.delete w (tenant_delete_options request.namespace w.meta))
        (lookup_failure describe workflow_not_found)
        (λ _ s. (json 200 (Body.message "workflow deleting" w.meta.name), s)))
