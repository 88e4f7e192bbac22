-- ===== src/WorkflowController/Children.antt =====
-- The child tasks of a workflow: `childTaskSpec`, `listChildTasks` and `createChildTask` of
-- internal/controller/workflow_controller.go.
use kube_task.Base.{
  String, Bool, not, ◌&&◌, none, some, List, [], ◌∷◌, ◌==◌, if◌then◌else◌, concat, get_or, insert,
  lookup,
}
use kube_task.Api.{
  empty_spec, empty_status, empty_meta, Task, TaskType, TaskSpec, WorkflowTask, Workflow,
}
use kube_task.Dag.{Graph, graph_task, child_task_name}
use kube_task.Kube.{
  Client, Call, Reply, done, failed, Error, already_exists, name_conflict, pure, throw, attempt,
  ◌>>=◌,
}
use kube_task.Tenant.{tenant_label, label_of, set_namespace}

abbrev pub workflow_label : String
workflow_label = "kubetask.io/workflow"

abbrev pub workflow_node_label : String
workflow_node_label = "kubetask.io/workflow-node"

-- The scheduling fields of a template are overruled: a node runs once.
unfoldable pub run_once : TaskSpec → TaskSpec
run_once spec = record spec {
  type = TaskType.one_time;
  schedule = "";
  delay = none;
  suspend = none;
}

unfoldable pub chosen_spec : List (String × TaskSpec) → WorkflowTask → TaskSpec
chosen_spec templates task =
    if not (task.template == "")
    then get_or empty_spec (lookup task.template templates)
    else get_or empty_spec task.task_spec

unfoldable pub child_task_spec : Workflow → Graph → String → TaskSpec
unfolding run_once chosen_spec graph_task
child_task_spec wf graph node_name = elim (graph_task graph node_name) [
  | none ↦ empty_spec
  | some task ↦ run_once (chosen_spec wf.spec.task_templates task)
]

-- The child as `createChildTask` hands it to the API server, before its owner reference.
unfoldable pub new_child : Workflow → Graph → String → Task
unfolding child_task_spec set_namespace child_task_name
new_child wf graph node_name = record {
  meta = empty_meta (child_task_name wf.meta.name node_name) (
      set_namespace ((workflow_label, wf.meta.name) ∷ (workflow_node_label, node_name) ∷ [])
        (label_of tenant_label wf.meta.labels));
  spec = child_task_spec wf graph node_name;
  status = empty_status;
}

module _ {S : Type 0} (client : Client S) (quote : String → String) where
  -- A child carries the workflow's tenant label, and the workflow controls it.
  unfoldable pub is_own_child : Workflow → Task → Bool
  is_own_child wf task =
      label_of tenant_label task.meta.labels == label_of tenant_label wf.meta.labels
      && client.is_controlled_by task.meta wf.meta

  unfoldable pub index_children : Workflow → List (String × Task) → List Task → List (String × Task)
  unfolding is_own_child
  index_children wf m [] = m
  index_children wf m (task ∷ tasks) =
      index_children wf (if is_own_child wf task then insert task.meta.name task m else m) tasks

  child_labels : Workflow → List (String × String)
  child_labels wf =
      let namespace = label_of tenant_label wf.meta.labels in
      if not (namespace == "")
      then (workflow_label, wf.meta.name) ∷ (tenant_label, namespace) ∷ []
      else (workflow_label, wf.meta.name) ∷ []

  unfoldable pub list_child_tasks : Workflow → Call S (List (String × Task))
  unfolding index_children child_labels
  list_child_tasks wf = do
    tasks ← client.list_tasks (child_labels wf)
    pure (index_children wf [] tasks)

  -- The name is taken: the child is adopted if it is this workflow's, else it is a conflict.
  unfoldable pub adopt_child : Workflow → String → Task → Reply Task
  unfolding is_own_child concat
  adopt_child wf name existing =
      if is_own_child wf existing
      then done existing
      else failed (
          name_conflict (
            concat (
              "child task name conflict: task "
              ∷ quote name
              ∷ " already exists and is not controlled by workflow "
              ∷ quote wf.meta.name
              ∷ [])))

  with_owner : Workflow → Task → Reply Task
  unfolding concat
  with_owner wf task = elim (client.set_controller_reference wf.meta task.meta) [
    | done meta ↦ done (record task { meta = meta })
    | failed e ↦ failed (
        Error.other (
          concat (
            "failed to set owner reference on task "
            ∷ quote task.meta.name
            ∷ ": "
            ∷ client.describe e
            ∷ [])))
  ]

  create_or_adopt : Workflow → Task → Call S Task
  unfolding adopt_child
  create_or_adopt wf task = do
    created ← attempt (client.create_task task)
    elim created [
      | done t ↦ pure t
      | failed already_exists ↦ client.get_task task.meta.name >>= λ existing s.
          (adopt_child wf task.meta.name existing, s)
      | failed e ↦ throw e
    ]

  unfoldable pub create_child_task : Workflow → Graph → String → Call S Task
  unfolding new_child with_owner create_or_adopt
  create_child_task wf graph node_name =
      (λ s. (with_owner wf (new_child wf graph node_name), s)) >>= create_or_adopt wf
