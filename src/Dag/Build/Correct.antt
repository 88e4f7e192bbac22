-- ===== src/Dag/Build/Correct.antt =====
-- `Build` of internal/workflow/dag.go as a whole: what it accepts, and what its graph holds.
use kube_task.Base.{ℕ, String, List, [], ◌∷◌, keys, ◌≡◌, ◌≢◌, refl, sym, ap, ◌∙◌, subst}
use kube_task.Api.{WorkflowTask, WorkflowSpec}
use kube_task.Dag.Accessors.{Graph, deps_in}
use kube_task.Dag.Validate.{
  accepted, rejected, ValidationError, ◌>>=◌, >>=-eq-rejected, DepMap, add_tasks, cyclic_dependency,
}
use kube_task.Dag.Kahn.{compute_order}
use kube_task.Dag.Kahn.Order.{IsValid, compute_order_total, compute_order_error}
use kube_task.Dag.Levels.{compute_levels}
use kube_task.Dag.Build.{build_tasks, build_from, build}
use kube_task.Dag.Build.Stages.{
  Built, deps_in_lem, Resolved-IsValid, build-Stages, Stages-Built, Stages-acyclic, stage_level,
}
use kube_task.Dag.Build.Spec.{edges_of, AllDeps, IsValidSpec, IsAcyclicBy}
use kube_task.Dag.Build.Tasks.{entries, keys-entries, add_tasks_total}
use kube_task.Dag.Build.Deps.{add_deps-Resolved, add_deps_total}

-- A spec that `Build` accepts is valid, and has no cycle: some ranking falls along every dependency.
pub build_sound :
    (quote : String → String) (spec : WorkflowSpec) (g : Graph)
    → build quote spec ≡ accepted g
    → IsValidSpec spec × (rank : String → ℕ) × IsAcyclicBy rank spec.tasks
build_sound quote spec g h =
    let s = build-Stages quote spec g h in
    (
      record {
        nonempty = s.nonempty;
        distinct = s.added.distinct;
        tasks = s.added.valid;
        deps = subst (λ l. AllDeps l spec.tasks) (keys-entries spec.tasks) s.resolved.valid;
      },
      stage_level quote spec g s,
      Stages-acyclic quote spec g s,
    )

-- The graph of a spec that `Build` accepts holds its tasks under their names and their dependencies
-- as they are listed. Its order has every node once, behind its dependencies. Its levels have every
-- node in one level, above those of all its dependencies, and right above one of them unless that
-- is the lowest level.
pub build-Built :
    (quote : String → String) (spec : WorkflowSpec) (g : Graph)
    → build quote spec ≡ accepted g
    → Built spec.tasks g
build-Built quote spec g h = Stages-Built quote spec g (build-Stages quote spec g h)

module _ (quote : String → String) (spec : WorkflowSpec) (valid : IsValidSpec spec) where
  abbrev graph_of : DepMap → List String → Graph
  graph_of deps order = record {
    tasks = entries spec.tasks;
    deps = deps;
    order = order;
    levels = compute_levels deps order;
  }

  build_from-nonempty :
      (ts : List WorkflowTask)
      → ts ≢ []
      → build_from quote spec ts
        ≡ (add_tasks quote spec.task_templates 0 [] ts >>= build_tasks quote spec)
  unfolding build_from
  build_from-nonempty [] ne = absurd (ne refl)
  build_from-nonempty (t ∷ ts) ne = refl

  -- With a valid spec only the search for an order is left to fail.
  build-IsValid :
      (deps : DepMap) × IsValid (keys (entries spec.tasks)) deps
      × ((n : String) → deps_in deps n ≡ edges_of spec.tasks n)
      × (build quote spec ≡ (
          compute_order (keys (entries spec.tasks)) deps >>= λ order.
          accepted (graph_of deps order)))
  unfolding build build_tasks
  build-IsValid =
      let m = entries spec.tasks in
      let (deps, found) =
        add_deps_total quote m [] spec.tasks
          (subst (λ l. AllDeps l spec.tasks) (sym (keys-entries spec.tasks)) valid.deps) in
      let resolved = add_deps-Resolved quote m [] deps spec.tasks valid.distinct found in
      (
        deps,
        Resolved-IsValid quote spec.tasks valid.distinct deps resolved,
        deps_in_lem quote spec.tasks valid.distinct deps resolved,
        rw (
          build_from-nonempty spec.tasks valid.nonempty,
          add_tasks_total quote spec.task_templates 0 [] spec.tasks valid.tasks valid.distinct
              (λ n k. refl),
          found,
        ),
      )

-- Every valid spec that has no cycle is accepted.
pub build_total :
    (quote : String → String) (spec : WorkflowSpec) (rank : String → ℕ)
    → IsValidSpec spec
    → IsAcyclicBy rank spec.tasks
    → (g : Graph) × (build quote spec ≡ accepted g)
build_total quote spec rank valid ranked =
    let (deps, ok, edges, found) = build-IsValid quote spec valid in
    let (order, placed) =
      compute_order_total (keys (entries spec.tasks)) deps ok rank
        (λ n d h. ranked n d (rw (edges n) at h)) in
    (
      graph_of quote spec valid deps order,
      found ∙ ap (λ c. c >>= λ o. accepted (graph_of quote spec valid deps o)) placed,
    )

-- The only reason to reject a valid spec is a cycle: no ranking falls along every dependency.
pub build_rejects_cycles :
    (quote : String → String) (spec : WorkflowSpec) (e : ValidationError)
    → IsValidSpec spec
    → build quote spec ≡ rejected e
    → (e.reason ≡ cyclic_dependency) × ((rank : String → ℕ) → ¬ (IsAcyclicBy rank spec.tasks))
build_rejects_cycles quote spec e valid h =
    let (deps, ok, edges, found) = build-IsValid quote spec valid in
    let failed : compute_order (keys (entries spec.tasks)) deps ≡ rejected e =
      >>=-eq-rejected (compute_order (keys (entries spec.tasks)) deps)
        (graph_of quote spec valid deps) (sym found ∙ h) in
    (
      (compute_order_error (keys (entries spec.tasks)) deps ok e failed).0,
      λ rank ranked.
          (compute_order_error (keys (entries spec.tasks)) deps ok e failed).1 rank
            (λ n d k. ranked n d (rw (edges n) at k)),
    )
