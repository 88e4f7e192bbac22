-- ===== src/Examples/Workflows.antt =====
-- A workflow of two nodes, `deploy` after `build`, on an API server that keeps what it is given.
use kube_task.Base.{
  ℕ, String, false, some, [], ◌∷◌, ◌==◌, if◌then◌else◌, ◌≡◌, refl, arith, String_discrete,
  sort_strings, join_strings,
}
use kube_task.Api.{TaskSpec, WorkflowTask, WorkflowSpec, empty_spec}
use kube_task.Dag.{Graph, accepted, rejected, ValidationError, build, cyclic_dependency}
use kube_task.Dag.Build.Spec.{IsValidSpec, IsValidTask, IsValidDeps, IsAcyclicBy}
use kube_task.Dag.Build.Stages.{Built}
use kube_task.Dag.Build.Correct.{build_sound, build-Built, build_total, build_rejects_cycles}

abbrev pub quote : String → String
quote s = s

abbrev pub image_spec : TaskSpec
image_spec = record empty_spec { image = "busybox" }

abbrev pub build_task : WorkflowTask
build_task = record {
  name = "build";
  depends_on = [];
  template = "";
  task_spec = some image_spec;
  run_on_failure = false;
}

abbrev pub deploy_task : WorkflowTask
deploy_task = record build_task { name = "deploy"; depends_on = "build" ∷ [] }

abbrev pub release_spec : WorkflowSpec
release_spec = record {
  max_parallel = 1;
  tasks = build_task ∷ deploy_task ∷ [];
  task_templates = [];
}

abbrev pub release_graph : Graph
release_graph = record {
  tasks = ("build", build_task) ∷ ("deploy", deploy_task) ∷ [];
  deps = ("deploy", "build" ∷ []) ∷ [];
  order = "build" ∷ "deploy" ∷ [];
  levels = ("build" ∷ []) ∷ ("deploy" ∷ []) ∷ [];
}

pub release-accepted : build quote release_spec ≡ accepted release_graph
unfolding build String_discrete sort_strings
release-accepted = refl

abbrev release_rank : String → ℕ
release_rank name = if name == "deploy" then 1 else 0

build_task-IsValidTask : IsValidTask [] build_task
unfolding String_discrete
build_task-IsValidTask = record {
  named = refl;
  one_spec = refl;
  known_template = λ h. ground arith;
}

deploy_task-IsValidTask : IsValidTask [] deploy_task
unfolding String_discrete
deploy_task-IsValidTask = record {
  named = refl;
  one_spec = refl;
  known_template = λ h. ground arith;
}

build_task-IsValidDeps : IsValidDeps ("build" ∷ "deploy" ∷ []) "build" []
build_task-IsValidDeps = record {
  distinct = tt;
  others = λ d h. ground arith;
  nonempty = λ d h. ground arith;
  known = λ d h. ground arith;
}

build-is_deploy : ("build" == "deploy") ≡ false
unfolding String_discrete
build-is_deploy = refl

pub build-is_empty : ("build" == "") ≡ false
unfolding String_discrete
build-is_empty = refl

deploy-is_empty : ("deploy" == "") ≡ false
unfolding String_discrete
deploy-is_empty = refl

deploy_task-IsValidDeps : IsValidDeps ("build" ∷ "deploy" ∷ []) "deploy" ("build" ∷ [])
deploy_task-IsValidDeps = record {
  distinct = (refl, tt);
  others = λ d h. ground (arith, build-is_deploy);
  nonempty = λ d h. ground (arith, build-is_empty);
  known = λ d h. ground arith;
}

build_task_cyclic-IsValidDeps : IsValidDeps ("build" ∷ "deploy" ∷ []) "build" ("deploy" ∷ [])
build_task_cyclic-IsValidDeps = record {
  distinct = (refl, tt);
  others = λ d h. ground (arith, build-is_deploy);
  nonempty = λ d h. ground (arith, deploy-is_empty);
  known = λ d h. ground arith;
}

release-IsValidSpec : IsValidSpec release_spec
unfolding String_discrete
release-IsValidSpec = record {
  nonempty = λ e. ground arith;
  distinct = (refl, (refl, tt));
  tasks = (build_task-IsValidTask, (deploy_task-IsValidTask, tt));
  deps = (build_task-IsValidDeps, (deploy_task-IsValidDeps, tt));
}

release-IsAcyclicBy : IsAcyclicBy release_rank release_spec.tasks
release-IsAcyclicBy n d h = ground arith

build_sound_example :
    IsValidSpec release_spec × (rank : String → ℕ) × IsAcyclicBy rank release_spec.tasks
build_sound_example = build_sound quote release_spec release_graph release-accepted

build-Built_example : Built release_spec.tasks release_graph
build-Built_example = build-Built quote release_spec release_graph release-accepted

build_total_example : (g : Graph) × (build quote release_spec ≡ accepted g)
build_total_example =
    build_total quote release_spec release_rank release-IsValidSpec release-IsAcyclicBy

-- The same workflow with `build` after `deploy`.
abbrev cyclic_spec : WorkflowSpec
cyclic_spec = record release_spec {
  tasks = record build_task { depends_on = "deploy" ∷ [] } ∷ deploy_task ∷ [];
}

build_task_cyclic-IsValidTask : IsValidTask [] (record build_task { depends_on = "deploy" ∷ [] })
unfolding String_discrete
build_task_cyclic-IsValidTask = record {
  named = refl;
  one_spec = refl;
  known_template = λ h. ground arith;
}

cyclic-IsValidSpec : IsValidSpec cyclic_spec
unfolding String_discrete
cyclic-IsValidSpec = record {
  nonempty = λ e. ground arith;
  distinct = (refl, (refl, tt));
  tasks = (build_task_cyclic-IsValidTask, (deploy_task-IsValidTask, tt));
  deps = (build_task_cyclic-IsValidDeps, (deploy_task-IsValidDeps, tt));
}

abbrev cycle_error : ValidationError
cycle_error = record {
  reason = cyclic_dependency;
  message = "workflow contains a dependency cycle involving [build deploy]";
}

cyclic-rejected : build quote cyclic_spec ≡ rejected cycle_error
unfolding build String_discrete sort_strings join_strings
cyclic-rejected = refl

build_rejects_cycles_example :
    (cycle_error.reason ≡ cyclic_dependency)
    × ((rank : String → ℕ) → ¬ (IsAcyclicBy rank cyclic_spec.tasks))
build_rejects_cycles_example =
    build_rejects_cycles quote cyclic_spec cycle_error cyclic-IsValidSpec cyclic-rejected
