-- ===== src/Dag/Build/Stages.antt =====
-- A build that is accepted, stage by stage, and what its graph holds.
use kube_task.Base.{
  ℕ, String, true, false, List, [], ◌∷◌, elem, Nodup, keys, Within, ◌≡◌, ◌≢◌, refl, subst, arith,
  Bool-cases, inl, inr,
}
use kube_task.Api.{WorkflowTask, WorkflowSpec}
use kube_task.Dag.Accessors.{Graph, deps_in}
use kube_task.Dag.Validate.{accepted, ◌>>=◌, >>=-eq-accepted, TaskMap, DepMap, add_tasks, add_deps}
use kube_task.Dag.Kahn.{compute_order}
use kube_task.Dag.Kahn.Reverse.{Distinct, deps_in_absent}
use kube_task.Dag.Kahn.Order.{IsValid, IsTopological, compute_order-IsTopological}
use kube_task.Dag.Levels.{compute_levels}
use kube_task.Dag.Levels.Pack.{IsLeveling, compute_levels-IsLeveling, level, level-lt}
use kube_task.Dag.Build.{build_tasks, build_from, build}
use kube_task.Dag.Build.Spec.{names_of, edges_of, AllDeps, IsAcyclicBy}
use kube_task.Dag.Build.Tasks.{entries, keys-entries, Added, add_tasks-Added}
use kube_task.Dag.Build.Deps.{Resolved, add_deps-Resolved, edges_of_absent}

Distinct-of :
    (deps : DepMap) → Nodup (keys deps) → ((n : String) → Nodup (deps_in deps n)) → Distinct deps
Distinct-of [] d h = tt
Distinct-of ((name, ds) ∷ rest) d h = (
  d.0,
  ground (arith, h name),
  Distinct-of rest d.1 (λ n. ground (arith, h n, deps_in_absent name rest d.0)),
)

Nodup-edges_of :
    (names : List String) (ts : List WorkflowTask) (n : String)
    → AllDeps names ts
    → Nodup (edges_of ts n)
Nodup-edges_of names [] n v = tt
Nodup-edges_of names (t ∷ ts) n v = ground (arith, v.0.distinct, Nodup-edges_of names ts n v.1)

edges_of-Within :
    (names : List String) (ts : List WorkflowTask) (n : String)
    → AllDeps names ts
    → Within (edges_of ts n) names
edges_of-Within names [] n v d h = cc
edges_of-Within names (t ∷ ts) n v d h =
    ground (arith, v.0.known d, edges_of-Within names ts n v.1 d)

module _ (quote : String → String) (ts : List WorkflowTask) (distinct : Nodup (names_of ts))
    (deps : DepMap) (resolved : Resolved quote (entries ts) [] ts deps) where
  pub deps_in_lem : (n : String) → deps_in deps n ≡ edges_of ts n
  deps_in_lem n = ground (arith, resolved.entry n, edges_of_absent quote (entries ts) n ts)

  pub Resolved-IsValid : IsValid (keys (entries ts)) deps
  Resolved-IsValid = record {
    names_distinct = rw keys-entries distinct;
    deps_distinct =
        Distinct-of deps (resolved.distinct tt)
          (λ n. rw (deps_in_lem n) (Nodup-edges_of (keys (entries ts)) ts n resolved.valid));
    inner = λ n h. rw (deps_in_lem n) (
        edges_of_absent quote (entries ts) n ts
          (subst (λ l. elem n l ≡ false) (keys-entries ts) h));
    closed = λ n. rw (deps_in_lem n) (edges_of-Within (keys (entries ts)) ts n resolved.valid);
  }

-- What the graph holds.
pub record Built (ts : List WorkflowTask) (g : Graph) : Type 0 where
  pub tasks : g.tasks ≡ entries ts
  pub edges : (n : String) → deps_in g.deps n ≡ edges_of ts n
  pub topological : IsTopological (names_of ts) g.deps g.order
  pub leveling : IsLeveling g.deps g.order g.levels

module _ (quote : String → String) (spec : WorkflowSpec) where
  -- The stages of a build that is accepted.
  pub record Stages (g : Graph) : Type 0 where
    pub nonempty : spec.tasks ≢ []
    pub added : Added quote spec.task_templates [] spec.tasks (entries spec.tasks)
    pub resolved : Resolved quote (entries spec.tasks) [] spec.tasks g.deps
    pub ordered : compute_order (keys (entries spec.tasks)) g.deps ≡ accepted g.order
    pub tasks : g.tasks ≡ entries spec.tasks
    pub levels : g.levels ≡ compute_levels g.deps g.order

  build_tasks-Stages :
      (g : Graph)
      → spec.tasks ≢ []
      → Added quote spec.task_templates [] spec.tasks (entries spec.tasks)
      → build_tasks quote spec (entries spec.tasks) ≡ accepted g
      → Stages g
  unfolding build_tasks
  build_tasks-Stages g ne added h =
      let m = entries spec.tasks in
      let (deps, one, more) =
        >>=-eq-accepted (add_deps quote m [] spec.tasks)
          (λ deps. compute_order (keys m) deps >>= λ order.
            accepted (record {
              tasks = m;
              deps = deps;
              order = order;
              levels = compute_levels deps order;
            }))
          h in
      let (order, two, done) =
        >>=-eq-accepted (compute_order (keys m) deps)
          (λ order.
            accepted (record {
              tasks = m;
              deps = deps;
              order = order;
              levels = compute_levels deps order;
            }))
          more in
      let resolved = add_deps-Resolved quote m [] deps spec.tasks added.distinct one in
      let same_deps : deps ≡ g.deps = ground arith in
      record {
        nonempty = ne;
        added = added;
        resolved = rw same_deps at resolved;
        ordered = ground arith;
        tasks = ground arith;
        levels = ground arith;
      }

  build_from-parts :
      (ts : List WorkflowTask) (g : Graph)
      → build_from quote spec ts ≡ accepted g
      → (ts ≢ [])
        × (m : TaskMap) × (add_tasks quote spec.task_templates 0 [] ts ≡ accepted m)
        × (build_tasks quote spec m ≡ accepted g)
  unfolding build_from
  build_from-parts [] g h = ground arith
  build_from-parts (t ∷ ts) g h =
      let (m, one, more) =
        >>=-eq-accepted (add_tasks quote spec.task_templates 0 [] (t ∷ ts)) (build_tasks quote spec)
          h in
      (λ e. cc, m, one, more)

  pub build-Stages : (g : Graph) → build quote spec ≡ accepted g → Stages g
  unfolding build
  build-Stages g h =
      let (ne, m, one, more) = build_from-parts spec.tasks g h in
      let added = add_tasks-Added quote spec.task_templates 0 [] m spec.tasks one in
      build_tasks-Stages g ne
        (record {
          result = refl;
          valid = added.valid;
          distinct = added.distinct;
          apart = added.apart;
        })
        (subst (λ k. build_tasks quote spec k ≡ accepted g) added.result more)

  module _ (g : Graph) (s : Stages g) where
    Stages-IsValid : IsValid (keys (entries spec.tasks)) g.deps
    Stages-IsValid = Resolved-IsValid quote spec.tasks s.added.distinct g.deps s.resolved

    pub Stages-IsTopological : IsTopological (keys (entries spec.tasks)) g.deps g.order
    Stages-IsTopological =
        compute_order-IsTopological (keys (entries spec.tasks)) g.deps Stages-IsValid g.order
          s.ordered

    pub Stages-Built : Built spec.tasks g
    Stages-Built = record {
      tasks = s.tasks;
      edges = deps_in_lem quote spec.tasks s.added.distinct g.deps s.resolved;
      topological = rw keys-entries at Stages-IsTopological;
      leveling = rw (s.levels) (
          compute_levels-IsLeveling g.deps g.order Stages-IsTopological.distinct
            Stages-IsTopological.ordered);
    }

    abbrev pub stage_level : String → ℕ
    stage_level = level g.deps g.order Stages-IsTopological.distinct Stages-IsTopological.ordered

    pub Stages-acyclic : IsAcyclicBy stage_level spec.tasks
    Stages-acyclic n d h =
        let t = Stages-IsTopological in
        let edge : elem d (deps_in g.deps n) ≡ true = rw (Stages-Built.edges n) h in
        level-lt g.deps g.order t.distinct t.ordered n d
          (t.complete n (elim (Bool-cases (elem n (keys (entries spec.tasks)))) [
            | inl inside ↦ inside
            | inr outside ↦ ground (arith, Stages-IsValid.inner n outside)
          ]))
          edge
