-- ===== src/Dag/Build.antt =====
-- `Build` and `ValidateChildTaskNames` of internal/workflow/dag.go, and internal/naming/naming.go.
pub mod Spec
pub mod Tasks
pub mod Deps
pub mod Stages
pub mod Correct
use kube_task.Base.{
  ℕ, String, List, [], ◌∷◌, if◌then◌else◌, ltb, len, keys, decimal, concat, join_strings,
}
use kube_task.Api.{WorkflowSpec, WorkflowTask}
use kube_task.Dag.Accessors.{Graph, child_task_name}
use kube_task.Dag.Validate.{
  Checked, accepted, ◌>>=◌, TaskMap, invalidf, no_tasks, invalid_task, add_tasks, add_deps,
}
use kube_task.Dag.Kahn.{compute_order}
use kube_task.Dag.Levels.{compute_levels}

abbrev pub max_task_name_length : ℕ
max_task_name_length = 46

module _ (quote : String → String) where
  build_tasks : WorkflowSpec → TaskMap → Checked Graph
  unfolding add_deps compute_order compute_levels
  build_tasks spec tasks = do
    deps ← add_deps quote tasks [] spec.tasks
    order ← compute_order (keys tasks) deps
    accepted
        (record { tasks = tasks; deps = deps; order = order; levels = compute_levels deps order })

  build_from : WorkflowSpec → List WorkflowTask → Checked Graph
  unfolding add_tasks build_tasks invalidf
  build_from spec [] = invalidf no_tasks ("workflow spec has no tasks" ∷ [])
  build_from spec (t ∷ ts) = add_tasks quote spec.task_templates 0 [] (t ∷ ts) >>= build_tasks spec

  unfoldable pub build : WorkflowSpec → Checked Graph
  unfolding build_from
  build spec = build_from spec spec.tasks

unfoldable pub offending_names : String → List String → List String
unfolding child_task_name concat
offending_names workflow_name [] = []
offending_names workflow_name (name ∷ rest) =
    let child = child_task_name workflow_name name in
    let others = offending_names workflow_name rest in
    if ltb max_task_name_length (len child)
    then concat (child ∷ " (" ∷ decimal (len child) ∷ " 字符)" ∷ []) ∷ others
    else others

report_names : List String → Checked (Unit {0})
unfolding invalidf
report_names [] = accepted tt
report_names (x ∷ xs) = invalidf invalid_task (
    "子 Task 名不能超过 "
    ∷ decimal max_task_name_length
    ∷ " 字符（Job/Pod 名长度限制）："
    ∷ join_strings ", " (x ∷ xs)
    ∷ [])

unfoldable pub validate_child_task_names : String → Graph → Checked (Unit {0})
unfolding offending_names report_names
validate_child_task_names workflow_name g = report_names (offending_names workflow_name g.order)
