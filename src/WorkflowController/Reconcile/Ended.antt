-- ===== src/WorkflowController/Reconcile/Ended.antt =====
-- `Reconcile` of a workflow that is over, and of one that is being deleted.
use kube_task.Base.{
  String, true, false, not, none, some, List, [], ◌∷◌, nat_eq, cases-if, ◌≡◌, refl, ◌∙◌, ap, arith,
}
use kube_task.Api.{Task, Workflow, WorkflowPhase, NodeStatus}
use kube_task.Kube.{
  Client, Call, and_then_pure, done, failed, not_found, and_then-eq-done, CtrlResult, no_requeue,
}
use kube_task.WorkflowController.Nodes.{is_workflow_terminal, can_retry_after_validation_failure}
use kube_task.WorkflowController.Children.{list_child_tasks}
use kube_task.WorkflowController.Reconcile.{
  workflow_finalizer, delete_child, delete_children, handle_deletion, reconcile_live,
  observe_generation, reconcile_found, reconcile,
}

-- A workflow that is over: it succeeded, or it failed and its generation was seen or some of its
-- nodes were laid out. (One that failed with no nodes is looked at again when its spec changes.)
pub data Over (wf : Workflow) : Type 0 where
  succeeded : wf.status.phase ≡ WorkflowPhase.succeeded → Over wf
  failed_seen :
      wf.status.phase ≡ WorkflowPhase.failed
      → wf.status.observed_generation ≡ wf.meta.generation
      → Over wf
  failed_running :
      (n : NodeStatus) (ns : List NodeStatus)
      → wf.status.phase ≡ WorkflowPhase.failed
      → wf.status.nodes ≡ n ∷ ns
      → Over wf

Over-is_workflow_terminal : (wf : Workflow) → Over wf → is_workflow_terminal wf.status.phase ≡ true
unfolding is_workflow_terminal
Over-is_workflow_terminal wf (Over.succeeded h) = rw h refl
Over-is_workflow_terminal wf (Over.failed_seen h g) = rw h refl
Over-is_workflow_terminal wf (Over.failed_running n ns h g) = rw h refl

-- It is not looked at again.
Over-retry :
    (wf : Workflow)
    → Over wf
    → nat_eq wf.status.observed_generation wf.meta.generation ≡ false
    → can_retry_after_validation_failure wf ≡ false
unfolding can_retry_after_validation_failure
Over-retry wf (Over.succeeded h) other = rw h refl
Over-retry wf (Over.failed_seen h g) other = absurd (ground (arith, g, other))
Over-retry wf (Over.failed_running n ns h g) other = rw (h, g) refl

module _ {S : Type 0} (client : Client S) (quote : String → String) where
  -- What the calls keep that a workflow that is over may lead to: to get the workflow, to write its
  -- object, and to write a status with its phase and its nodes.
  pub record KeptOver (wf : Workflow) (P : S → Type 0) : Type 0 where
    pub get_workflow : (name : String) (s : S) → P s → P (client.get_workflow name s).1
    pub update_workflow : (w : Workflow) (s : S) → P s → P (client.update_workflow w s).1
    pub update_status :
        (w : Workflow) (s : S)
        → w.status.phase ≡ wf.status.phase
        → w.status.nodes ≡ wf.status.nodes
        → P s
        → P (client.update_workflow_status w s).1

  reconcile_live-keeps :
      (P : S → Type 0) (wf : Workflow) (s : S)
      → KeptOver wf P
      → Over wf
      → P s
      → P (reconcile_live client quote wf s).1
  unfolding reconcile_live observe_generation
  reconcile_live-keeps P wf s k over p =
      cases-if (λ (call : Call S CtrlResult). P (call s).1)
        (not (client.contains_finalizer wf.meta workflow_finalizer))
        (λ absent. and_then_pure P _ no_requeue _ (k.update_workflow _ s p))
        (λ held. rw (Over-is_workflow_terminal wf over) (
          cases-if (λ (call : Call S CtrlResult). P (call s).1)
            (nat_eq wf.status.observed_generation wf.meta.generation) (λ seen. p)
            (λ unseen.
              rw (Over-retry wf over unseen)
                (and_then_pure P _ no_requeue _ (k.update_status _ s refl refl p)))))

  reconcile_found_alive :
      (wf : Workflow)
      → wf.meta.deletion_timestamp ≡ none
      → reconcile_found client quote wf ≡ reconcile_live client quote wf
  unfolding reconcile_found
  reconcile_found_alive wf alive =
      ap
        (λ o. elim o as (λ _. Call S CtrlResult) [
          | some t ↦ handle_deletion client quote wf
          | none ↦ reconcile_live client quote wf
        ])
        alive

  -- `Reconcile` of a workflow that is over and is not being deleted, on every branch, errors
  -- included: what is kept by getting the workflow, by writing its object and by writing a status
  -- with the same phase and nodes is kept, whatever the calls on tasks would do.
  pub reconcile_ended :
      (P : S → Type 0) (name : String) (wf : Workflow) (s : S)
      → KeptOver wf P
      → (client.get_workflow name s).0 ≡ done wf
      → wf.meta.deletion_timestamp ≡ none
      → Over wf
      → P s
      → P (reconcile client quote name s).1
  unfolding reconcile
  reconcile_ended P name wf s k got alive over p =
      rw (got, reconcile_found_alive wf alive)
        (reconcile_live-keeps P wf _ k over (k.get_workflow name s p))

  -- A child that counts as gone: it is not being deleted, and the API server does not find it.
  abbrev pub IsGone : Task → S → Type 0
  IsGone child st =
      (child.meta.deletion_timestamp ≡ none)
      × ((client.delete_task child.meta.name (some child.meta.uid) st).0 ≡ failed not_found)

  -- The states in which the children are looked at, one after the other.
  abbrev pub AllGone : List (String × Task) → S → Type 0
  AllGone [] st = Unit
  AllGone ((name, child) ∷ children) st =
      IsGone child st × AllGone children (delete_child client quote child st).1

  delete_child-zero :
      (child : Task) (st : S) → (delete_child client quote child st).0 ≡ done 0 → IsGone child st
  unfolding delete_child
  delete_child-zero child st h = ground arith

  delete_children-AllGone :
      (children : List (String × Task)) (st : S)
      → (delete_children client quote children st).0 ≡ done 0
      → AllGone children st
  unfolding delete_children
  delete_children-AllGone [] st h = tt
  delete_children-AllGone ((name, child) ∷ children) st h =
      let step = delete_child client quote child st in
      let (one, p, q) = and_then-eq-done step.0 _ step.1 h in
      let (more, p', q') =
        and_then-eq-done (delete_children client quote children step.1).0 _
          (delete_children client quote children step.1).1 q in
      let both : (one ≡ 0) × (more ≡ 0) = ground (arith, q') in
      (
        delete_child-zero child st (p ∙ ap done both.0),
        delete_children-AllGone children step.1 (p' ∙ ap done both.1),
      )

  -- What `handleDeletion` went through when it is done with a workflow: it listed the children, and
  -- each of them was gone when its turn came.
  pub record Cleaned (wf : Workflow) (st : S) : Type 0 where
    pub children : List (String × Task)
    pub listed : (list_child_tasks client quote wf st).0 ≡ done children
    pub gone : AllGone children (list_child_tasks client quote wf st).1

  -- If `handleDeletion` ends without an error and without asking to be called again, then it listed
  -- the children and found each of them gone: not yet marked for deletion, and unknown to the API
  -- server when it was asked to delete it.
  pub handle_deletion-Cleaned :
      (wf : Workflow) (st : S)
      → (handle_deletion client quote wf st).0 ≡ done no_requeue
      → Cleaned wf st
  unfolding handle_deletion
  handle_deletion-Cleaned wf st h =
      let listing = list_child_tasks client quote wf st in
      let (children, p, q) = and_then-eq-done listing.0 _ listing.1 h in
      let (left, p', q') =
        and_then-eq-done (delete_children client quote children listing.1).0 _
          (delete_children client quote children listing.1).1 q in
      let none_left : left ≡ 0 = ground (arith, q') in
      record {
        children = children;
        listed = p;
        gone = delete_children-AllGone children listing.1 (p' ∙ ap done none_left);
      }
