-- ===== src/Dag/Validate.antt =====
-- The validation loops of `Build` in internal/workflow/dag.go.
-- `quote` stands for the verb `%q` of package fmt.
use kube_task.Base.{
  ◌≡◌, refl, ℕ, ◌+◌, String, Bool, true, false, not, List, [], ◌∷◌, ◌++◌, ◌==◌, if◌then◌else◌, elem,
  lookup, insert, is_some, decimal, concat,
}
use kube_task.Api.{WorkflowTask, TaskSpec}
use kube_task.Dag.Accessors.{deps_in}

pub data Reason : Type 0 where
  no_tasks duplicate_task_name invalid_task empty_dependency self_dependency : Reason
  unknown_dependency duplicate_dependency missing_template cyclic_dependency : Reason

unfoldable pub reason_text : Reason → String
reason_text no_tasks = "NoTasks"
reason_text duplicate_task_name = "DuplicateTaskName"
reason_text invalid_task = "InvalidTask"
reason_text empty_dependency = "EmptyDependency"
reason_text self_dependency = "SelfDependency"
reason_text unknown_dependency = "UnknownDependency"
reason_text duplicate_dependency = "DuplicateDependency"
reason_text missing_template = "MissingTemplate"
reason_text cyclic_dependency = "CyclicDependency"

pub record ValidationError : Type 0 where
  pub reason : Reason
  pub message : String

-- A value, or the `ValidationError` that the function returns in its place.
pub data Checked {ℓ} (A : Type ℓ) : Type ℓ where
  accepted : A → Checked A
  rejected : ValidationError → Checked A

infixl 5 ◌>>=◌
abbrev pub ◌>>=◌ {ℓ κ} : {A : Type ℓ} {B : Type κ} → Checked A → (A → Checked B) → Checked B
accepted a >>= f = f a
rejected e >>= f = rejected e

-- Inversion of a chain that is accepted.
pub >>=-eq-accepted {ℓ κ} :
    {A : Type ℓ} {B : Type κ} (m : Checked A) (f : A → Checked B) {b : B}
    → (m >>= f) ≡ accepted b
    → (a : A) × (m ≡ accepted a) × (f a ≡ accepted b)
>>=-eq-accepted (accepted a) f h = (a, refl, h)
>>=-eq-accepted (rejected e) f h = cc

-- Where the last step only returns, what is rejected was rejected before it.
pub >>=-eq-rejected {ℓ κ} :
    {A : Type ℓ} {B : Type κ} (m : Checked A) (f : A → B) {e : ValidationError}
    → (m >>= λ a. accepted (f a)) ≡ rejected e
    → m ≡ rejected e
>>=-eq-rejected (accepted a) f h = cc
>>=-eq-rejected (rejected d) f h = cc

unfoldable pub invalidf {ℓ} : {A : Type ℓ} → Reason → List String → Checked A
unfolding concat
invalidf reason parts = rejected (record { reason = reason; message = concat parts })

abbrev pub TaskMap : Type 0
TaskMap = List (String × WorkflowTask)

abbrev pub DepMap : Type 0
DepMap = List (String × List String)

-- `hasTemplate == hasInlineSpec`
abbrev pub same_bool : Bool → Bool → Bool
same_bool true b = b
same_bool false b = not b

-- A template is looked up only where the task names one.
abbrev pub missing : String → List (String × TaskSpec) → Bool
missing template templates =
    if not (template == "") then not (is_some (lookup template templates)) else false

module _ (quote : String → String) where
  -- The body of the first loop, for the task at index `i`.
  unfoldable pub add_task : List (String × TaskSpec) → ℕ → TaskMap → WorkflowTask → Checked TaskMap
  unfolding invalidf
  add_task templates i tasks task =
      if task.name == ""
      then invalidf invalid_task ("task at index " ∷ decimal i ∷ " has an empty name" ∷ [])
      else if is_some (lookup task.name tasks)
      then invalidf duplicate_task_name
          ("task name " ∷ quote task.name ∷ " is declared more than once" ∷ [])
      else if same_bool (not (task.template == "")) (is_some task.task_spec)
      then invalidf invalid_task
          ("task " ∷ quote task.name ∷ " must set exactly one of template or taskSpec" ∷ [])
      else if missing task.template templates
      then invalidf missing_template
          ("task " ∷ quote task.name ∷ " references unknown template " ∷ quote task.template ∷ [])
      else accepted (insert task.name task tasks)

  unfoldable pub add_tasks :
      List (String × TaskSpec) → ℕ → TaskMap → List WorkflowTask → Checked TaskMap
  unfolding add_task
  add_tasks templates i tasks [] = accepted tasks
  add_tasks templates i tasks (task ∷ rest) =
      add_task templates i tasks task >>= λ tasks'. add_tasks templates (i + 1) tasks' rest

  -- The body of the second loop's inner loop, for one dependency of the task called `name`.
  unfoldable pub check_dep : TaskMap → String → List String → String → Checked (Unit {0})
  unfolding invalidf
  check_dep tasks name seen dep =
      if dep == ""
      then invalidf empty_dependency ("task " ∷ quote name ∷ " has an empty dependency" ∷ [])
      else if dep == name
      then invalidf self_dependency ("task " ∷ quote name ∷ " depends on itself" ∷ [])
      else if not (is_some (lookup dep tasks))
      then invalidf unknown_dependency
          ("task " ∷ quote name ∷ " depends on unknown task " ∷ quote dep ∷ [])
      else if elem dep seen
      then invalidf duplicate_dependency
          ("task " ∷ quote name ∷ " lists dependency " ∷ quote dep ∷ " more than once" ∷ [])
      else accepted tt

  unfoldable pub add_deps_of :
      TaskMap → String → List String → DepMap → List String → Checked DepMap
  unfolding check_dep
  add_deps_of tasks name seen deps [] = accepted deps
  add_deps_of tasks name seen deps (dep ∷ rest) = check_dep tasks name seen dep >>= λ _.
      add_deps_of tasks name (dep ∷ seen) (insert name (deps_in deps name ++ dep ∷ []) deps) rest

  unfoldable pub add_deps : TaskMap → DepMap → List WorkflowTask → Checked DepMap
  unfolding add_deps_of
  add_deps tasks deps [] = accepted deps
  add_deps tasks deps (task ∷ rest) =
      add_deps_of tasks task.name [] deps task.depends_on >>= λ deps'. add_deps tasks deps' rest
