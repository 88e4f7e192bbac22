-- ===== src/WorkflowController/Advance/Starts.antt =====
-- The nodes that `advanceNodes` starts, and the phases of their dependencies.
use kube_task.Base.{
  String, Bool, true, false, ◌==◌, List, [], ◌∷◌, ◌++◌, elem, Nodup, append_assoc, append-nil, some,
  ◌≡◌, refl, sym, ◌∙◌, subst, ap, arith,
}
use kube_task.Api.{Time, Task, NodePhase, NodeStatus, Workflow}
use kube_task.Dag.{Graph, graph_task, graph_deps, update}
use kube_task.Kube.{Client, done}
use kube_task.WorkflowController.Nodes.{
  ready, decide_node, mark_node_running, mark_node_skipped, sync_node_from_task,
}
use kube_task.WorkflowController.Nodes.Decide.{has_ended, expected_action, decide_node-action}
use kube_task.WorkflowController.Advance.{
  Sweep, is_running, is_pending, phases_of, pass_over, record_synced, record_skipped,
  record_started, first_sweep, advance_nodes,
}
use kube_task.WorkflowController.Advance.Rule.{Rule, advance_nodes_rule}
use kube_task.WorkflowController.Advance.Phases.{
  node_names, phase_of, has_started, Started, AllStarted, Keeps, expected_action-Keeps,
  AllStarted-Keeps, AllStarted-replace, AllStarted-refl, phase_of-replace, phase_of-here,
  node_names-replace, node_names-apart, phases_of-phase_of,
}

-- What the passes keep, of all nodes and the map of their phases.
record Inv (graph : Graph) (old nodes : List NodeStatus) (phases : String → NodePhase)
    : Type 0 where
  phases_lem : (n : String) → phases n ≡ phase_of nodes n
  names : node_names nodes ≡ node_names old
  started : AllStarted graph phases old nodes

update-Keeps :
    (p : String → NodePhase) (name : String) (q : NodePhase)
    → has_ended (p name) ≡ false
    → Keeps p (update p name q)
update-Keeps p name q h d e = ground arith

-- One node that had not ended is replaced.
Inv-replace :
    (graph : Graph) (old xs : List NodeStatus) (a b : NodeStatus) (rest : List NodeStatus)
    (p : String → NodePhase)
    → Nodup (node_names old)
    → b.name ≡ a.name
    → has_ended a.phase ≡ false
    → ((x : NodeStatus)
        → Started graph (update p a.name b.phase) x a
        → Started graph (update p a.name b.phase) x b)
    → Inv graph old (xs ++ a ∷ rest) p
    → Inv graph old (xs ++ b ∷ rest) (update p a.name b.phase)
Inv-replace graph old xs a b rest p d e open' f inv =
    let apart = node_names-apart xs a rest (subst Nodup (sym inv.names) d) in
    record {
      phases_lem = λ n. ground (arith, phase_of-replace xs a b rest n e apart, inv.phases_lem n);
      names = node_names-replace xs a b rest e ∙ inv.names;
      started = AllStarted-replace graph (update p a.name b.phase) old xs a b rest f (
          AllStarted-Keeps graph p (update p a.name b.phase) old (xs ++ a ∷ rest)
            (update-Keeps p a.name b.phase
              (ground (arith, inv.phases_lem a.name, phase_of-here xs a rest apart)))
            inv.started);
    }

Started-renamed :
    (graph : Graph) (p : String → NodePhase) (x a b : NodeStatus)
    → b.name ≡ a.name
    → has_started a.phase ≡ true
    → Started graph p x a
    → Started graph p x b
Started-renamed graph p x a b e running h task pending started found =
    subst (λ m. expected_action task.run_on_failure p (graph_deps graph m) ≡ ready) (sym e)
      (h task pending running (subst (λ m. graph_task graph m ≡ some task) e found))

synced-facts :
    (now : Time) (node : NodeStatus) (child : Task)
    → let r : NodeStatus × Bool = sync_node_from_task now node child in
      (r.0.name ≡ node.name) × (r.1 ≡ false → r.0 ≡ node)
unfolding sync_node_from_task
synced-facts now node child = (ground arith, λ h. ground arith)

name-started :
    (now : Time) (node : NodeStatus) (child : Task)
    → (sync_node_from_task now (mark_node_running now node child) child).0.name ≡ node.name
unfolding sync_node_from_task mark_node_running
name-started now node child = ground arith

module _ (quote : String → String) (wf : Workflow) (graph : Graph) (old : List NodeStatus)
    (distinct : Nodup (node_names old))
    (named : (n d : String) → elem d (graph_deps graph n) ≡ true → (d == "") ≡ false) where
  abbrev Holding : List NodeStatus → Sweep → Type 0
  Holding rest s = Inv graph old (s.nodes ++ rest) s.phases

  snoc :
      (xs : List NodeStatus) (b : NodeStatus) (rest : List NodeStatus) (p : String → NodePhase)
      → Inv graph old (xs ++ b ∷ rest) p
      → Inv graph old ((xs ++ b ∷ []) ++ rest) p
  snoc xs b rest p h = rw (append_assoc xs (b ∷ []) rest) h

  synced-Holding :
      (node : NodeStatus) (r : NodeStatus × Bool) (rest : List NodeStatus) (s : Sweep)
      → is_running node ≡ true
      → r.0.name ≡ node.name
      → (r.1 ≡ false → r.0 ≡ node)
      → Holding (node ∷ rest) s
      → Holding rest (record_synced r s)
  unfolding record_synced
  synced-Holding node (b, false) rest s running e same h =
      rw (same refl) (snoc s.nodes node rest s.phases h)
  synced-Holding node (b, true) rest s running e same h =
      subst (λ m. Inv graph old ((s.nodes ++ b ∷ []) ++ rest) (update s.phases m b.phase)) (sym e)
        (snoc s.nodes b rest (update s.phases node.name b.phase) (
          Inv-replace graph old s.nodes node b rest s.phases distinct e (ground arith)
            (λ x st.
              Started-renamed graph (update s.phases node.name b.phase) x node b e (ground arith)
                st)
            h))

  started-Holding :
      (node b : NodeStatus) (ended : Bool) (reason : String) (rest : List NodeStatus) (s : Sweep)
      → is_pending node ≡ true
      → decide_node quote graph s.phases node.name ≡ (ready, reason)
      → b.name ≡ node.name
      → Holding (node ∷ rest) s
      → Holding rest (record_started (b, ended) s)
  unfolding record_started
  started-Holding node b ended reason rest s pending d e h =
      let apart = node_names-apart s.nodes node rest (subst Nodup (sym h.names) distinct) in
      let open' : has_ended (s.phases node.name) ≡ false =
        ground (arith, h.phases_lem node.name, phase_of-here s.nodes node rest apart) in
      subst (λ m. Inv graph old ((s.nodes ++ b ∷ []) ++ rest) (update s.phases m b.phase)) (sym e)
        (snoc s.nodes b rest (update s.phases node.name b.phase) (
          Inv-replace graph old s.nodes node b rest s.phases distinct e (ground arith)
            (λ x st task was now found.
              expected_action-Keeps task.run_on_failure s.phases (update s.phases node.name b.phase)
                (graph_deps graph b.name) (update-Keeps s.phases node.name b.phase open')
                (subst
                  (λ m. expected_action task.run_on_failure s.phases (graph_deps graph m) ≡ ready)
                  (sym e)
                  (sym (
                      decide_node-action quote graph s.phases node.name task
                        (subst (λ m. graph_task graph m ≡ some task) e found) (named node.name))
                    ∙ ap (λ r. r.0) d)))
            h))

  skipped-Holding :
      (now : Time) (node : NodeStatus) (reason : String) (rest : List NodeStatus) (s : Sweep)
      → is_pending node ≡ true
      → Holding (node ∷ rest) s
      → Holding rest (record_skipped (mark_node_skipped now node reason) s)
  unfolding record_skipped mark_node_skipped
  skipped-Holding now node reason rest s pending h =
      snoc s.nodes _ rest (update s.phases node.name NodePhase.skipped) (
        Inv-replace graph old s.nodes node _ rest s.phases distinct refl (ground arith)
          (λ x st task was now found. ground arith) h)

  settled :
      (nodes : List NodeStatus) (p : String → NodePhase)
      → Inv graph old nodes p
      → AllStarted graph (phase_of nodes) old nodes
  settled nodes p h =
      AllStarted-Keeps graph p (phase_of nodes) old nodes (λ d e. sym (h.phases_lem d)) h.started

  Starts-Rule : Rule quote wf graph Holding (λ nodes. AllStarted graph (phase_of nodes) old nodes)
  unfolding pass_over
  Starts-Rule = record {
    over = λ node rest s h. snoc s.nodes node rest s.phases h;
    synced = λ now node child rest s running h.
        synced-Holding node (sync_node_from_task now node child) rest s running
          (synced-facts now node child).0 (synced-facts now node child).1 h;
    skipped = λ now node reason rest s p d h. skipped-Holding now node reason rest s p h;
    started = λ now node reason child rest s p d free h.
        started-Holding node (sync_node_from_task now (mark_node_running now node child) child).0
          (sync_node_from_task now (mark_node_running now node child) child).1 reason rest s p d
          (name-started now node child) h;
    stopped = λ node rest s h. settled (s.nodes ++ node ∷ rest) s.phases h;
    ended = λ s h.
        settled s.nodes s.phases (subst (λ l. Inv graph old l s.phases) (append-nil s.nodes) h);
    repeated = λ s h. subst (λ l. Inv graph old l s.phases) (append-nil s.nodes) h;
  }

-- Where no two nodes have one name and no dependency's name is empty, `advanceNodes` starts a
-- pending node only if the phases that it leaves ask for that: a normal node only if all its
-- dependencies succeeded, a failure handler only if all have ended and one failed or was skipped.
pub advance_nodes-AllStarted :
    {S : Type 0} (client : Client S) (quote : String → String) (wf : Workflow) (graph : Graph)
    (st st' : S) (wf' : Workflow) (changed : Bool)
    → Nodup (node_names wf.status.nodes)
    → ((n d : String) → elem d (graph_deps graph n) ≡ true → (d == "") ≡ false)
    → advance_nodes client quote wf graph st ≡ (done (wf', changed), st')
    → AllStarted graph (phase_of wf'.status.nodes) wf.status.nodes wf'.status.nodes
unfolding first_sweep
advance_nodes-AllStarted client quote wf graph st st' wf' changed distinct named e =
    let old = wf.status.nodes in
    advance_nodes_rule client quote wf graph (Starts-Rule quote wf graph old distinct named) st st'
      wf' changed
      (record {
        phases_lem = λ n. phases_of-phase_of old n distinct;
        names = refl;
        started = AllStarted-refl graph (phases_of (λ _. NodePhase.unset) old) old;
      })
      e
