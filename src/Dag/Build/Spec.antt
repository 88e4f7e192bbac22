-- ===== src/Dag/Build/Spec.antt =====
-- What makes a workflow spec schedulable, stated on the spec alone.
use kube_task.Base.{
  String, true, false, List, [], ◌∷◌, ◌==◌, if◌then◌else◌, elem, Nodup, lookup, is_some, ◌≡◌, ◌≢◌,
  ◌<◌, ℕ,
}
use kube_task.Api.{WorkflowTask, WorkflowSpec, TaskSpec}

abbrev pub names_of : List WorkflowTask → List String
names_of [] = []
names_of (t ∷ ts) = t.name ∷ names_of ts

-- The dependencies that the spec gives a node.
abbrev pub edges_of : List WorkflowTask → String → List String
edges_of [] n = []
edges_of (t ∷ ts) n = if t.name == n then t.depends_on else edges_of ts n

-- A task has a name, and either a template that is there or a spec of its own.
pub record IsValidTask (templates : List (String × TaskSpec)) (t : WorkflowTask) : Type 0 where
  pub named : (t.name == "") ≡ false
  pub one_spec : (t.template == "") ≡ is_some t.task_spec
  pub known_template : (t.template == "") ≡ false → is_some (lookup t.template templates) ≡ true

-- Its dependencies are other nodes of the workflow, each listed once.
pub record IsValidDeps (names : List String) (name : String) (deps : List String) : Type 0 where
  pub distinct : Nodup deps
  pub others : (d : String) → elem d deps ≡ true → (d == name) ≡ false
  pub nonempty : (d : String) → elem d deps ≡ true → (d == "") ≡ false
  pub known : (d : String) → elem d deps ≡ true → elem d names ≡ true

abbrev pub AllTasks : List (String × TaskSpec) → List WorkflowTask → Type 0
AllTasks templates [] = Unit
AllTasks templates (t ∷ ts) = IsValidTask templates t × AllTasks templates ts

abbrev pub AllDeps : List String → List WorkflowTask → Type 0
AllDeps names [] = Unit
AllDeps names (t ∷ ts) = IsValidDeps names t.name t.depends_on × AllDeps names ts

pub record IsValidSpec (spec : WorkflowSpec) : Type 0 where
  pub nonempty : spec.tasks ≢ []
  pub distinct : Nodup (names_of spec.tasks)
  pub tasks : AllTasks spec.task_templates spec.tasks
  pub deps : AllDeps (names_of spec.tasks) spec.tasks

-- `rank` falls along every dependency: the workflow has no cycle.
abbrev pub IsAcyclicBy : (String → ℕ) → List WorkflowTask → Type 0
IsAcyclicBy rank tasks = (n d : String) → elem d (edges_of tasks n) ≡ true → rank d < rank n
