-- ===== src/WorkflowController/Advance/Rule.antt =====
-- A proof rule for the two passes of `advanceNodes`, whatever the API server answers.
use kube_task.Base.{
  String, Bool, true, false, none, some, List, [], ◌∷◌, ◌++◌, ◌≡◌, refl, arith, lookup, Bool-cases,
  inl, inr, ap,
}
use kube_task.Api.{Time, Task, NodeStatus, Workflow}
use kube_task.Dag.{Graph, child_task_name}
use kube_task.Kube.{Client, Call, done, failed, not_found, already_exists, name_conflict, other}
use kube_task.WorkflowController.Nodes.{
  NodeAction, wait, ready, skip, mark_node_running, mark_node_skipped, sync_node_from_task,
  decide_node, fail_workflow,
}
use kube_task.WorkflowController.Children.{create_child_task, list_child_tasks}
use kube_task.WorkflowController.Advance.{
  Sweep, Pass, swept, conflict, is_running, is_pending, pass_over, record_synced, record_skipped,
  record_started, slots_taken, with_child, after_create, after_pass, sync_found, sync_running,
  visit_running, start_node, skip_node, act_on, visit_pending, sweep_nodes, first_sweep,
  both_passes, close_pass, with_nodes, advance_nodes, again,
}
use kube_task.WorkflowController.Advance.Outcome.{OnDone, OnDone-elim, OnDone-and_then}

-- What to show of an invariant of the passes: `I` holds of the nodes to come and the variables, and
-- `J` of the nodes that a conflict leaves.
pub record Rule (quote : String → String) (wf : Workflow) (graph : Graph)
    (I : List NodeStatus → Sweep → Type 0) (J : List NodeStatus → Type 0) : Type 0 where
  pub over :
      (node : NodeStatus) (rest : List NodeStatus) (s : Sweep)
      → I (node ∷ rest) s
      → I rest (pass_over node s)
  pub synced :
      (now : Time) (node : NodeStatus) (child : Task) (rest : List NodeStatus) (s : Sweep)
      → is_running node ≡ true
      → I (node ∷ rest) s
      → I rest (record_synced (sync_node_from_task now node child) s)
  pub skipped :
      (now : Time) (node : NodeStatus) (reason : String) (rest : List NodeStatus) (s : Sweep)
      → is_pending node ≡ true
      → decide_node quote graph s.phases node.name ≡ (skip, reason)
      → I (node ∷ rest) s
      → I rest (record_skipped (mark_node_skipped now node reason) s)
  pub started :
      (now : Time) (node : NodeStatus) (reason : String) (child : Task) (rest : List NodeStatus)
      (s : Sweep)
      → is_pending node ≡ true
      → decide_node quote graph s.phases node.name ≡ (ready, reason)
      → slots_taken wf.spec.max_parallel s.running ≡ false
      → I (node ∷ rest) s
      → I rest (record_started (sync_node_from_task now (mark_node_running now node child) child) s)
  pub stopped :
      (node : NodeStatus) (rest : List NodeStatus) (s : Sweep)
      → I (node ∷ rest) s
      → J (s.nodes ++ node ∷ rest)
  pub ended : (s : Sweep) → I [] s → J s.nodes
  pub repeated : (s : Sweep) → I [] s → I s.nodes (record s { nodes = [] })

nodes-fail_workflow :
    (now : Time) (wf : Workflow) (message : String)
    → (fail_workflow now wf message).0.status.nodes ≡ wf.status.nodes
unfolding fail_workflow
nodes-fail_workflow now wf message = ground arith

module _ {S : Type 0} (client : Client S) (quote : String → String) (wf : Workflow) (graph : Graph)
    {I : List NodeStatus → Sweep → Type 0} {J : List NodeStatus → Type 0}
    (rule : Rule quote wf graph I J) where
  abbrev pub Holds : List NodeStatus → Pass → Type 0
  Holds rest (swept s) = I rest s
  Holds rest (conflict message nodes changed) = J nodes

  with_child-Holds :
      (node : NodeStatus) (rest : List NodeStatus) (s : Sweep) (k : Task → Call S Sweep) (st : S)
      → I (node ∷ rest) s
      → ((child : Task) (st' : S) → OnDone (I rest) (k child st').0)
      → OnDone (Holds rest) (with_child client quote wf graph node rest s k st).0
  unfolding with_child
  with_child-Holds node rest s k st h hk =
      elim (create_child_task client quote wf graph node.name st).0
        as (λ r.
          OnDone (Holds rest)
            (after_create client quote wf graph node rest s k r
              (create_child_task client quote wf graph node.name st).1).0) [
                | done child ↦
                    OnDone-and_then (Holds rest) (k child _).0 _ _
                      (λ s' e. OnDone-elim (I rest) _ s' e (hk child _))
                | failed (name_conflict message) ↦ rule.stopped node rest s h
                | failed not_found ↦ tt
                | failed already_exists ↦ tt
                | failed (other m) ↦ tt
              ]

  start_node-Holds :
      (node : NodeStatus) (reason : String) (rest : List NodeStatus) (s : Sweep) (st : S)
      → is_pending node ≡ true
      → decide_node quote graph s.phases node.name ≡ (ready, reason)
      → slots_taken wf.spec.max_parallel s.running ≡ false
      → I (node ∷ rest) s
      → OnDone (Holds rest) (start_node client quote wf graph node rest s st).0
  unfolding start_node
  start_node-Holds node reason rest s st p d free h =
      with_child-Holds node rest s _ st h (λ child st'.
        OnDone-and_then (I rest) (client.now st').0 _ _
          (λ now e. rule.started now node reason child rest s p d free h))

  visit_running-Holds :
      (children : List (String × Task)) (node : NodeStatus) (rest : List NodeStatus) (s : Sweep)
      (st : S)
      → I (node ∷ rest) s
      → OnDone (Holds rest) (visit_running client quote wf graph children node rest s st).0
  unfolding visit_running sync_running
  visit_running-Holds children node rest s st h = elim (Bool-cases (is_running node)) [
    | inr idle ↦ rw idle (rule.over node rest s h)
    | inl busy ↦
        rw busy
          (elim (lookup (child_task_name wf.meta.name node.name) children)
            as (λ child.
              OnDone (Holds rest) (sync_found client quote wf graph child node rest s st).0) [
                | none ↦ with_child-Holds node rest s _ st h (λ child st'. rule.over node rest s h)
                | some child ↦
                    OnDone-and_then (Holds rest) (client.now st).0 _ _
                      (λ now e. rule.synced now node child rest s busy h)
              ])
  ]

  act_on-Holds :
      (decision : NodeAction × String) (node : NodeStatus) (rest : List NodeStatus) (s : Sweep)
      (st : S)
      → is_pending node ≡ true
      → decide_node quote graph s.phases node.name ≡ decision
      → I (node ∷ rest) s
      → OnDone (Holds rest) (act_on client quote wf graph decision node rest s st).0
  unfolding act_on skip_node
  act_on-Holds (wait, reason) node rest s st p d h = rule.over node rest s h
  act_on-Holds (skip, reason) node rest s st p d h =
      OnDone-and_then (Holds rest) (client.now st).0 _ _
        (λ now e. rule.skipped now node reason rest s p d h)
  act_on-Holds (ready, reason) node rest s st p d h =
      elim (Bool-cases (slots_taken wf.spec.max_parallel s.running)) [
        | inl full ↦ rw full (rule.over node rest s h)
        | inr free ↦ rw free (start_node-Holds node reason rest s st p d free h)
      ]

  visit_pending-Holds :
      (node : NodeStatus) (rest : List NodeStatus) (s : Sweep) (st : S)
      → I (node ∷ rest) s
      → OnDone (Holds rest) (visit_pending client quote wf graph node rest s st).0
  unfolding visit_pending
  visit_pending-Holds node rest s st h = elim (Bool-cases (is_pending node)) [
    | inr idle ↦ rw idle (rule.over node rest s h)
    | inl p ↦
        rw p (act_on-Holds (decide_node quote graph s.phases node.name) node rest s st p refl h)
  ]

  after_pass-Holds :
      (rest last : List NodeStatus) (pass : Pass) (next : Sweep → Call S Pass) (st : S)
      → Holds rest pass
      → ((s : Sweep) → I rest s → OnDone (Holds last) (next s st).0)
      → OnDone (Holds last) (after_pass client quote wf graph pass next st).0
  unfolding after_pass
  after_pass-Holds rest last (swept s) next st h more = more s h
  after_pass-Holds rest last (conflict message nodes changed) next st h more = h

  -- A pass whose steps keep the count keeps it.
  sweep_nodes-Holds :
      (visit : NodeStatus → List NodeStatus → Sweep → Call S Pass)
      → ((node : NodeStatus) (rest : List NodeStatus) (s : Sweep) (st : S)
          → I (node ∷ rest) s
          → OnDone (Holds rest) (visit node rest s st).0)
      → (nodes : List NodeStatus) (s : Sweep) (st : S) → I nodes s
      → OnDone (Holds []) (sweep_nodes client quote wf graph visit nodes s st).0
  unfolding sweep_nodes
  sweep_nodes-Holds visit keeps [] s st h = h
  sweep_nodes-Holds visit keeps (node ∷ rest) s st h =
      OnDone-and_then (Holds []) (visit node rest s st).0 _ _ (λ pass e.
        after_pass-Holds rest [] pass (sweep_nodes client quote wf graph visit rest) _
          (OnDone-elim (Holds rest) _ pass e (keeps node rest s st h))
          (λ s' h'. sweep_nodes-Holds visit keeps rest s' _ h'))

  close_pass-Holds :
      (pass : Pass) (st : S)
      → Holds [] pass
      → OnDone (λ r. J (r.0).status.nodes) (close_pass client quote wf graph pass st).0
  unfolding close_pass with_nodes
  close_pass-Holds (swept s) st h = rule.ended s h
  close_pass-Holds (conflict message nodes changed) st h =
      OnDone-and_then (λ r. J (r.0).status.nodes) (client.now st).0 _ _
        (λ now e. rw (nodes-fail_workflow now (with_nodes client quote wf graph nodes) message) h)

  both_passes-Holds :
      (children : List (String × Task)) (nodes : List NodeStatus) (st : S)
      → I nodes (first_sweep client quote wf graph nodes)
      → OnDone (Holds []) (both_passes client quote wf graph children nodes st).0
  unfolding both_passes
  both_passes-Holds children nodes st h =
      OnDone-and_then (Holds [])
        (sweep_nodes client quote wf graph (visit_running client quote wf graph children) nodes
          (first_sweep client quote wf graph nodes) st).0
        _ _
        (λ pass e.
          after_pass-Holds [] [] pass _ _
            (OnDone-elim (Holds []) _ pass e (
              sweep_nodes-Holds (visit_running client quote wf graph children)
                (visit_running-Holds children) nodes (first_sweep client quote wf graph nodes) st
                h))
            (λ s holds.
              sweep_nodes-Holds (visit_pending client quote wf graph) visit_pending-Holds s.nodes
                (again client quote wf graph s) _ (rule.repeated s holds)))

  advance_nodes-Holds :
      (st : S)
      → I wf.status.nodes (first_sweep client quote wf graph wf.status.nodes)
      → OnDone (λ r. J (r.0).status.nodes) (advance_nodes client quote wf graph st).0
  unfolding advance_nodes
  advance_nodes-Holds st h =
      OnDone-and_then (λ r. J (r.0).status.nodes) (list_child_tasks client quote wf st).0 _ _
        (λ children e.
          OnDone-and_then (λ r. J (r.0).status.nodes)
            (both_passes client quote wf graph children wf.status.nodes _).0 _ _
            (λ pass e'.
              close_pass-Holds pass _ (
                OnDone-elim (Holds []) _ pass e' (both_passes-Holds children wf.status.nodes _ h))))

  -- The nodes that `advanceNodes` returns satisfy `J`, if the invariant holds at its start.
  pub advance_nodes_rule :
      (st st' : S) (wf' : Workflow) (changed : Bool)
      → I wf.status.nodes (first_sweep client quote wf graph wf.status.nodes)
      → advance_nodes client quote wf graph st ≡ (done (wf', changed), st')
      → J wf'.status.nodes
  advance_nodes_rule st st' wf' changed h e =
      OnDone-elim (λ r. J (r.0).status.nodes) _ (wf', changed) (ap (λ r. r.0) e)
        (advance_nodes-Holds st h)
