-- ===== src/Dag/Kahn/Batch.antt =====
-- What one round of Kahn's loop does: the in-degrees count the dependencies not done yet, and the
-- next batch holds the nodes whose last one the round did.
use kube_task.Base.{
  ◌≤◌, String, true, false, not, ◌||◌, ◌&&◌, List, [], ◌∷◌, elem, Nodup, nat_eq, ◌≡◌, arith, pos,
}
use kube_task.Dag.Kahn.{Relaxed, relax_dependents, relax_batch}
use kube_task.Dag.Kahn.Unmet.{unmet, unmet-cons}
use kube_task.Dag.Kahn.Relax.{
  relax_dependents-indegree, relax_dependents-next, relax_dependents-Nodup,
}

-- `deps` gives a node's dependencies and `dependents` the nodes that depend on one, as is.
pub record Edges (deps dependents : String → List String) : Type 0 where
  pub deps_nodup : (n : String) → Nodup (deps n)
  pub dependents_nodup : (n : String) → Nodup (dependents n)
  pub reversed : (m n : String) → elem n (dependents m) ≡ elem m (deps n)

-- The nodes done after a batch, the last one first.
pub push : List String → List String → List String
push [] done = done
push (x ∷ xs) done = push xs (x ∷ done)

pub elem-push :
    (n : String) (xs done : List String) → elem n (push xs done) ≡ (elem n done || elem n xs)
unfolding push
elem-push n [] done = ground arith
elem-push n (x ∷ xs) done = ground (arith, elem-push n xs (x ∷ done))

module _ {deps dependents : String → List String} (edges : Edges deps dependents)
    (start : List String) where
  -- The state after the nodes of `done`, those of `start` being done before the round.
  pub record Counts (done : List String) (s : Relaxed) : Type 0 where
    pub degree : (n : String) → s.indegree n ≡ pos (unmet done (deps n))
    pub bounded : (n : String) → unmet done (deps n) ≤ unmet start (deps n)
    pub joined :
        (n : String)
        → elem n s.next ≡ (nat_eq (unmet done (deps n)) 0 && not (nat_eq (unmet start (deps n)) 0))
    pub next_nodup : Nodup s.next

  relax-Counts :
      (m : String) (done : List String) (s : Relaxed)
      → elem m done ≡ false
      → Counts done s
      → Counts (m ∷ done) (relax_dependents s (dependents m))
  relax-Counts m done s absent c = record {
    degree = λ n. ground (
      arith,
      c.degree n,
      edges.reversed m n,
      relax_dependents-indegree n s (dependents m) (edges.dependents_nodup m),
      unmet-cons m done (deps n) (edges.deps_nodup n) absent,
    );
    bounded =
        λ n. ground (arith, c.bounded n, unmet-cons m done (deps n) (edges.deps_nodup n) absent);
    joined = λ n. ground (
      arith,
      c.degree n,
      c.bounded n,
      c.joined n,
      edges.reversed m n,
      relax_dependents-next n s (dependents m) (edges.dependents_nodup m),
      unmet-cons m done (deps n) (edges.deps_nodup n) absent,
    );
    next_nodup =
        relax_dependents-Nodup s (dependents m) (λ n h. ground (arith, c.degree n, c.joined n))
          (λ n h. ground (
            arith,
            c.degree n,
            edges.reversed m n,
            unmet-cons m done (deps n) (edges.deps_nodup n) absent,
          ))
          (edges.dependents_nodup m) c.next_nodup;
  }

  pub relax_batch-Counts :
      (batch done : List String) (s : Relaxed)
      → Nodup batch
      → ((n : String) → elem n batch ≡ true → elem n done ≡ false)
      → Counts done s
      → Counts (push batch done) (relax_batch dependents s batch)
  unfolding relax_batch push
  relax_batch-Counts [] done s d apart c = c
  relax_batch-Counts (m ∷ batch) done s d apart c =
      relax_batch-Counts batch (m ∷ done) (relax_dependents s (dependents m)) d.1
        (λ n h. ground (arith, apart n)) (relax-Counts m done s (apart m (ground arith)) c)
