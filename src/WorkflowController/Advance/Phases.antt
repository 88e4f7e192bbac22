-- ===== src/WorkflowController/Advance/Phases.antt =====
-- The phases of the nodes by name, and what they ask of a node that starts.
use kube_task.Base.{
  String, Bool, true, false, ◌||◌, ◌==◌, if◌then◌else◌, List, [], ◌∷◌, ◌++◌, elem, Nodup, some, ◌≡◌,
  refl, arith,
}
use kube_task.Api.{NodePhase, NodeStatus, WorkflowTask}
use kube_task.Dag.{Graph, graph_task, graph_deps, update}
use kube_task.WorkflowController.Nodes.{ready}
use kube_task.WorkflowController.Nodes.Decide.{
  has_ended, is_blocking, any_phase, all_phases, expected_action,
}
use kube_task.WorkflowController.Advance.{is_pending, phases_of}

abbrev pub node_names : List NodeStatus → List String
node_names [] = []
node_names (node ∷ nodes) = node.name ∷ node_names nodes

-- The phase of the node that has a name.
abbrev pub phase_of : List NodeStatus → String → NodePhase
phase_of [] name = NodePhase.unset
phase_of (node ∷ nodes) name = if node.name == name then node.phase else phase_of nodes name

abbrev pub has_started : NodePhase → Bool
has_started NodePhase.running = true
has_started NodePhase.succeeded = true
has_started NodePhase.failed = true
has_started _ = false

-- If a node was pending and has started since, its dependencies' phases ask for that.
abbrev pub Started : Graph → (String → NodePhase) → NodeStatus → NodeStatus → Type 0
Started graph phases old new =
    (task : WorkflowTask)
    → is_pending old ≡ true
    → has_started new.phase ≡ true
    → graph_task graph new.name ≡ some task
    → expected_action task.run_on_failure phases (graph_deps graph new.name) ≡ ready

abbrev pub AllStarted : Graph → (String → NodePhase) → List NodeStatus → List NodeStatus → Type 0
AllStarted graph phases (x ∷ xs) (y ∷ ys) = Started graph phases x y × AllStarted graph phases xs ys
AllStarted graph phases _ _ = Unit

-- What has ended stays so.
abbrev pub Keeps : (String → NodePhase) → (String → NodePhase) → Type 0
Keeps p q = (d : String) → has_ended (p d) ≡ true → q d ≡ p d

pub all_phases-Keeps :
    (p q : String → NodePhase) (ds : List String)
    → Keeps p q
    → all_phases has_ended p ds ≡ true
    → (all_phases has_ended q ds ≡ true) × (any_phase is_blocking q ds ≡ any_phase is_blocking p ds)
all_phases-Keeps p q [] k h = (refl, refl)
all_phases-Keeps p q (d ∷ ds) k h =
    ground (arith, k d (ground arith), all_phases-Keeps p q ds k (ground arith))

pub expected_action-ended :
    (b : Bool) (p : String → NodePhase) (ds : List String)
    → expected_action b p ds ≡ ready
    → all_phases has_ended p ds ≡ true
expected_action-ended b p ds h = ground arith

pub expected_action-Keeps :
    (b : Bool) (p q : String → NodePhase) (ds : List String)
    → Keeps p q
    → expected_action b p ds ≡ ready
    → expected_action b q ds ≡ ready
expected_action-Keeps b p q ds k h =
    ground (arith, all_phases-Keeps p q ds k (expected_action-ended b p ds h))

module _ (graph : Graph) where
  pub AllStarted-Keeps :
      (p q : String → NodePhase) (old new : List NodeStatus)
      → Keeps p q
      → AllStarted graph p old new
      → AllStarted graph q old new
  AllStarted-Keeps p q [] [] k h = tt
  AllStarted-Keeps p q [] (y ∷ ys) k h = tt
  AllStarted-Keeps p q (x ∷ xs) [] k h = tt
  AllStarted-Keeps p q (x ∷ xs) (y ∷ ys) k h = (
    λ task a b c.
        expected_action-Keeps task.run_on_failure p q (graph_deps graph y.name) k (h.0 task a b c),
    AllStarted-Keeps p q xs ys k h.1,
  )

  pub AllStarted-replace :
      (p : String → NodePhase) (old xs : List NodeStatus) (a b : NodeStatus)
      (rest : List NodeStatus)
      → ((x : NodeStatus) → Started graph p x a → Started graph p x b)
      → AllStarted graph p old (xs ++ a ∷ rest)
      → AllStarted graph p old (xs ++ b ∷ rest)
  AllStarted-replace p [] [] a b rest f h = tt
  AllStarted-replace p [] (x ∷ xs) a b rest f h = tt
  AllStarted-replace p (o ∷ old) [] a b rest f h = (f o h.0, h.1)
  AllStarted-replace p (o ∷ old) (x ∷ xs) a b rest f h =
      (h.0, AllStarted-replace p old xs a b rest f h.1)

  pub AllStarted-refl :
      (p : String → NodePhase) (nodes : List NodeStatus) → AllStarted graph p nodes nodes
  AllStarted-refl p [] = tt
  AllStarted-refl p (x ∷ xs) = (λ task a b c. ground arith, AllStarted-refl p xs)

pub phase_of-replace :
    (xs : List NodeStatus) (a b : NodeStatus) (rest : List NodeStatus) (name : String)
    → b.name ≡ a.name
    → elem a.name (node_names xs) ≡ false
    → phase_of (xs ++ b ∷ rest) name ≡ update (phase_of (xs ++ a ∷ rest)) a.name b.phase name
phase_of-replace [] a b rest name e h = ground arith
phase_of-replace (x ∷ xs) a b rest name e h =
    ground (arith, phase_of-replace xs a b rest name e (ground arith))

pub phase_of-here :
    (xs : List NodeStatus) (a : NodeStatus) (rest : List NodeStatus)
    → elem a.name (node_names xs) ≡ false
    → phase_of (xs ++ a ∷ rest) a.name ≡ a.phase
phase_of-here [] a rest h = ground arith
phase_of-here (x ∷ xs) a rest h = ground (arith, phase_of-here xs a rest (ground arith))

pub node_names-replace :
    (xs : List NodeStatus) (a b : NodeStatus) (rest : List NodeStatus)
    → b.name ≡ a.name
    → node_names (xs ++ b ∷ rest) ≡ node_names (xs ++ a ∷ rest)
node_names-replace [] a b rest e = ground arith
node_names-replace (x ∷ xs) a b rest e = ground (arith, node_names-replace xs a b rest e)

elem-node_names :
    (n : String) (xs ys : List NodeStatus)
    → elem n (node_names (xs ++ ys)) ≡ (elem n (node_names xs) || elem n (node_names ys))
elem-node_names n [] ys = refl
elem-node_names n (x ∷ xs) ys = ground (arith, elem-node_names n xs ys)

pub node_names-apart :
    (xs : List NodeStatus) (a : NodeStatus) (rest : List NodeStatus)
    → Nodup (node_names (xs ++ a ∷ rest))
    → elem a.name (node_names xs) ≡ false
node_names-apart [] a rest d = refl
node_names-apart (x ∷ xs) a rest d =
    ground (arith, node_names-apart xs a rest d.1, elem-node_names x.name xs (a ∷ rest))

phases_of_lem :
    (p : String → NodePhase) (nodes : List NodeStatus) (n : String)
    → Nodup (node_names nodes)
    → phases_of p nodes n ≡ (if elem n (node_names nodes) then phase_of nodes n else p n)
unfolding phases_of
phases_of_lem p [] n d = refl
phases_of_lem p (x ∷ nodes) n d =
    ground (arith, phases_of_lem (update p x.name x.phase) nodes n d.1, d.0)

phase_of-absent :
    (nodes : List NodeStatus) (n : String)
    → elem n (node_names nodes) ≡ false
    → phase_of nodes n ≡ NodePhase.unset
phase_of-absent [] n h = refl
phase_of-absent (x ∷ nodes) n h = ground (arith, phase_of-absent nodes n)

pub phases_of-phase_of :
    (nodes : List NodeStatus) (n : String)
    → Nodup (node_names nodes)
    → phases_of (λ _. NodePhase.unset) nodes n ≡ phase_of nodes n
phases_of-phase_of nodes n d =
    ground (arith, phases_of_lem (λ _. NodePhase.unset) nodes n d, phase_of-absent nodes n)
