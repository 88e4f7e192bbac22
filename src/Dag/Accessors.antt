-- ===== src/Dag/Accessors.antt =====
-- The graph of internal/workflow/dag.go and its accessors. The accessors return copies in the
-- source; values are never shared here, so a copy is the value.
use kube_task.Base.{ℕ, String, Option, List, [], lookup, get_or, length, concat, ◌∷◌}
use kube_task.Api.{WorkflowTask}

pub record Graph : Type 0 where
  pub tasks : List (String × WorkflowTask)
  pub deps : List (String × List String)
  pub order : List String
  pub levels : List (List String)

-- `g.deps[name]`: a missing key reads as the empty slice.
abbrev pub deps_in : List (String × List String) → String → List String
deps_in deps name = get_or [] (lookup name deps)

unfoldable pub graph_len : Graph → ℕ
graph_len g = length g.tasks

unfoldable pub graph_task : Graph → String → Option WorkflowTask
graph_task g name = lookup name g.tasks

unfoldable pub graph_deps : Graph → String → List String
graph_deps g name = deps_in g.deps name

unfoldable pub child_task_name : String → String → String
unfolding concat
child_task_name workflow_name node_name = concat (workflow_name ∷ "-" ∷ node_name ∷ [])
