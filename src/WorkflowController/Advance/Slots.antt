-- ===== src/WorkflowController/Advance/Slots.antt =====
-- The slots of `maxParallel`: the count that `advanceNodes` keeps, and the running nodes.
use kube_task.Base.{ℕ, ◌+◌, ◌≤◌, ◌<◌, String, true, List, [], ◌∷◌, ◌++◌, ◌≡◌, arith}
use kube_task.Api.{Time, Task, NodeStatus}
use kube_task.WorkflowController.Nodes.{mark_node_running, mark_node_skipped, sync_node_from_task}
use kube_task.WorkflowController.Advance.{
  Sweep, Pass, swept, conflict, is_running, is_pending, count_running, pass_over, record_synced,
  record_skipped, record_started,
}

pub count_running-append :
    (xs ys : List NodeStatus) → count_running (xs ++ ys) ≡ count_running xs + count_running ys
unfolding count_running
count_running-append [] ys = omega arith
count_running-append (x ∷ xs) ys = ground (arith, count_running-append xs ys)

module _ (bound : ℕ) where
  -- The count covers the nodes of both halves.
  abbrev pub Fits : List NodeStatus → Sweep → Type 0
  Fits rest s = (s.running ≡ count_running s.nodes + count_running rest) × (s.running ≤ bound)

  abbrev pub PassFits : List NodeStatus → Pass → Type 0
  PassFits rest (swept s) = Fits rest s
  PassFits rest (conflict message nodes changed) = count_running nodes ≤ bound

  pub pass_over-Fits :
      (node : NodeStatus) (rest : List NodeStatus) (s : Sweep)
      → Fits (node ∷ rest) s
      → Fits rest (pass_over node s)
  unfolding pass_over count_running
  pass_over-Fits node rest s h = ground (arith, count_running-append s.nodes (node ∷ []))

  pub synced-Fits :
      (now : Time) (node : NodeStatus) (child : Task) (rest : List NodeStatus) (s : Sweep)
      → is_running node ≡ true
      → Fits (node ∷ rest) s
      → Fits rest (record_synced (sync_node_from_task now node child) s)
  unfolding sync_node_from_task record_synced count_running
  synced-Fits now node child rest s r h =
      ground (arith, count_running-append s.nodes ((sync_node_from_task now node child).0 ∷ []))

  pub skipped-Fits :
      (now : Time) (node : NodeStatus) (reason : String) (rest : List NodeStatus) (s : Sweep)
      → is_pending node ≡ true
      → Fits (node ∷ rest) s
      → Fits rest (record_skipped (mark_node_skipped now node reason) s)
  unfolding record_skipped mark_node_skipped count_running
  skipped-Fits now node reason rest s p h =
      ground (arith, count_running-append s.nodes (mark_node_skipped now node reason ∷ []))

  pub started-Fits :
      (now : Time) (node : NodeStatus) (child : Task) (rest : List NodeStatus) (s : Sweep)
      → is_pending node ≡ true
      → s.running < bound
      → Fits (node ∷ rest) s
      → Fits rest
          (record_started (sync_node_from_task now (mark_node_running now node child) child) s)
  unfolding sync_node_from_task record_started mark_node_running count_running
  started-Fits now node child rest s p room h = ground (
    arith,
    count_running-append s.nodes
        ((sync_node_from_task now (mark_node_running now node child) child).0 ∷ []),
  )
