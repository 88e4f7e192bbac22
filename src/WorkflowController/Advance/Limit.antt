-- ===== src/WorkflowController/Advance/Limit.antt =====
-- `advanceNodes` of internal/controller/workflow_controller.go, and `maxParallel`.
use Prim.Native.Nat.{max}
use kube_task.Base.{ℕ, ◌≤◌, ◌<◌, String, Bool, ◌∷◌, ◌≡◌, arith}
use kube_task.Api.{Workflow}
use kube_task.Dag.{Graph}
use kube_task.Kube.{Client, done}
use kube_task.WorkflowController.Advance.{count_running, first_sweep, advance_nodes}
use kube_task.WorkflowController.Advance.Rule.{Rule, advance_nodes_rule}
use kube_task.WorkflowController.Advance.Slots.{
  count_running-append, Fits, pass_over-Fits, synced-Fits, skipped-Fits, started-Fits,
}

module _ (quote : String → String) (wf : Workflow) (graph : Graph) (bound : ℕ)
    (limited : 0 < wf.spec.max_parallel) (within : wf.spec.max_parallel ≤ bound) where
  Fits-Rule : Rule quote wf graph (Fits bound) (λ nodes. count_running nodes ≤ bound)
  unfolding count_running
  Fits-Rule = record {
    over = λ node rest s h. pass_over-Fits bound node rest s h;
    synced = λ now node child rest s r h. synced-Fits bound now node child rest s r h;
    skipped = λ now node reason rest s p d h. skipped-Fits bound now node reason rest s p h;
    started = λ now node reason child rest s p d free h.
        started-Fits bound now node child rest s p (ground arith) h;
    stopped = λ node rest s h. omega (arith, count_running-append s.nodes (node ∷ rest));
    ended = λ s h. omega arith;
    repeated = λ s h. omega arith;
  }

-- With a limit, `advanceNodes` leaves no more nodes running than that, or than there were, whatever
-- the API server answers and also where it ends at a name conflict.
pub advance_nodes-le_max_parallel :
    {S : Type 0} (client : Client S) (quote : String → String) (wf : Workflow) (graph : Graph)
    (st st' : S) (wf' : Workflow) (changed : Bool)
    → 0 < wf.spec.max_parallel
    → advance_nodes client quote wf graph st ≡ (done (wf', changed), st')
    → count_running wf'.status.nodes ≤ max wf.spec.max_parallel (count_running wf.status.nodes)
unfolding first_sweep count_running
advance_nodes-le_max_parallel client quote wf graph st st' wf' changed limited e =
    let bound = max wf.spec.max_parallel (count_running wf.status.nodes) in
    advance_nodes_rule client quote wf graph (Fits-Rule quote wf graph bound limited (omega arith))
      st st' wf' changed (omega arith) e
