-- ===== src/WorkflowController/Nodes/Decide.antt =====
-- What `decideNode` decides, against a description by the dependencies' phases.
use kube_task.Base.{
  String, Bool, true, false, not, ◌&&◌, ◌||◌, List, [], ◌∷◌, ◌==◌, if◌then◌else◌, elem, some, ◌≡◌,
  arith, nat_eq,
}
use kube_task.Api.{NodePhase, WorkflowTask}
use kube_task.Dag.{Graph, graph_task, graph_deps}
use kube_task.WorkflowController.Nodes.{
  NodeAction, wait, ready, skip, Gathered, gather_dep, gather_deps, decide_node,
}

-- A dependency that failed or was skipped.
abbrev pub is_blocking : NodePhase → Bool
is_blocking NodePhase.failed = true
is_blocking NodePhase.skipped = true
is_blocking _ = false

-- A dependency that has ended, one way or another.
abbrev pub has_ended : NodePhase → Bool
has_ended NodePhase.succeeded = true
has_ended NodePhase.failed = true
has_ended NodePhase.skipped = true
has_ended _ = false

abbrev pub any_phase : (NodePhase → Bool) → (String → NodePhase) → List String → Bool
any_phase p phases [] = false
any_phase p phases (d ∷ ds) = p (phases d) || any_phase p phases ds

abbrev pub all_phases : (NodePhase → Bool) → (String → NodePhase) → List String → Bool
all_phases p phases [] = true
all_phases p phases (d ∷ ds) = p (phases d) && all_phases p phases ds

-- A normal node runs once all its dependencies succeeded and is skipped as soon as one of them did
-- not. A failure handler waits for all of them, and runs if one of them did not succeed.
abbrev pub expected_action : Bool → (String → NodePhase) → List String → NodeAction
expected_action false phases ds =
    if any_phase is_blocking phases ds
    then skip
    else if all_phases has_ended phases ds
    then ready
    else wait
expected_action true phases ds =
    if not (all_phases has_ended phases ds)
    then wait
    else if any_phase is_blocking phases ds
    then ready
    else skip

gather_deps-blocked :
    (phases : String → NodePhase) (ds : List String) (g : Gathered)
    → ((d : String) → elem d ds ≡ true → (d == "") ≡ false)
    → not ((gather_deps phases ds g).blocked_by == "")
      ≡ (not (g.blocked_by == "") || any_phase is_blocking phases ds)
unfolding gather_deps
gather_deps-blocked phases [] g named = ground arith
gather_deps-blocked phases (d ∷ ds) g named = ground (
  arith,
  named d (ground arith),
  gather_deps-blocked phases ds (gather_dep (phases d) d g) (λ e h. named e (ground arith)),
)

gather_deps-waiting :
    (phases : String → NodePhase) (ds : List String) (g : Gathered)
    → nat_eq (gather_deps phases ds g).waiting 0
      ≡ (nat_eq g.waiting 0 && all_phases has_ended phases ds)
unfolding gather_deps
gather_deps-waiting phases [] g = ground arith
gather_deps-waiting phases (d ∷ ds) g =
    ground (arith, gather_deps-waiting phases ds (gather_dep (phases d) d g))

-- For a node of the graph whose dependencies have names, the decision is the expected one.
pub decide_node-action :
    (quote : String → String) (graph : Graph) (phases : String → NodePhase) (name : String)
    (task : WorkflowTask)
    → graph_task graph name ≡ some task
    → ((d : String) → elem d (graph_deps graph name) ≡ true → (d == "") ≡ false)
    → (decide_node quote graph phases name).0
      ≡ expected_action task.run_on_failure phases (graph_deps graph name)
unfolding decide_node
decide_node-action quote graph phases name task found named =
    let start : Gathered = record { blocked_by = ""; waiting = 0 } in
    ground (
      arith,
      gather_deps-blocked phases (graph_deps graph name) start named,
      gather_deps-waiting phases (graph_deps graph name) start,
    )
