-- ===== src/WorkflowController/Status/Summary.antt =====
-- What `summarize` concludes.
use kube_task.Base.{
  String, Bool, true, false, not, ◌||◌, ◌&&◌, List, [], ◌∷◌, ◌++◌, if◌then◌else◌, ◌≡◌, refl, arith,
  nat_eq, all,
}
use kube_task.Api.{Time, NodePhase, WorkflowPhase, NodeStatus, Workflow}
use kube_task.WorkflowController.Nodes.{is_workflow_terminal, node_phase_eq}
use kube_task.WorkflowController.Nodes.Decide.{has_ended}
use kube_task.WorkflowController.Status.{Tally, tally_node, tally_nodes, conclude, summarize}

abbrev pub all_ended : List NodeStatus → Bool
all_ended nodes = all (λ node. has_ended node.phase) nodes

abbrev pub any_failed : List NodeStatus → Bool
any_failed [] = false
any_failed (node ∷ nodes) = node_phase_eq node.phase NodePhase.failed || any_failed nodes

abbrev is_nonempty : List String → Bool
is_nonempty [] = false
is_nonempty (x ∷ xs) = true

nonempty-append : (xs : List String) (x : String) → is_nonempty (xs ++ x ∷ []) ≡ true
nonempty-append [] x = refl
nonempty-append (y ∷ xs) x = refl

tally-pending :
    (nodes : List NodeStatus) (t : Tally)
    → nat_eq (tally_nodes nodes t).pending 0 ≡ (nat_eq t.pending 0 && all_ended nodes)
unfolding tally_nodes
tally-pending [] t = ground arith
tally-pending (n ∷ nodes) t = ground (arith, tally-pending nodes (tally_node n.phase n.name t))

tally-failed :
    (nodes : List NodeStatus) (t : Tally)
    → is_nonempty (tally_nodes nodes t).failed ≡ (is_nonempty t.failed || any_failed nodes)
unfolding tally_nodes
tally-failed [] t = ground arith
tally-failed (n ∷ nodes) t =
    ground
      (arith, tally-failed nodes (tally_node n.phase n.name t), nonempty-append t.failed n.name)

-- The phase that the nodes give a workflow which has none yet.
abbrev pub expected_phase : List NodeStatus → WorkflowPhase → WorkflowPhase
expected_phase nodes p =
    if not (all_ended nodes)
    then p
    else if any_failed nodes
    then WorkflowPhase.failed
    else WorkflowPhase.succeeded

phase-conclude :
    (now : Time) (wf : Workflow) (names : List String)
    → (conclude now wf names).status.phase
      ≡ (if is_nonempty names then WorkflowPhase.failed else WorkflowPhase.succeeded)
unfolding conclude
phase-conclude now wf [] = refl
phase-conclude now wf (x ∷ xs) = refl

-- A workflow that has not ended ends exactly when all its nodes have: it then failed if a node
-- failed, and succeeded otherwise. `summarize` says whether it ended.
pub summarize-phase :
    (now : Time) (wf : Workflow)
    → is_workflow_terminal wf.status.phase ≡ false
    → ((summarize now wf).0.status.phase ≡ expected_phase wf.status.nodes wf.status.phase)
      × ((summarize now wf).1 ≡ all_ended wf.status.nodes)
unfolding summarize
summarize-phase now wf h =
    let start : Tally = record { failed = []; pending = 0 } in
    ground (
      arith,
      tally-pending wf.status.nodes start,
      tally-failed wf.status.nodes start,
      phase-conclude now wf (tally_nodes wf.status.nodes start).failed,
    )
