-- ===== src/Dag/Kahn/Relax.antt =====
-- What the loop over the dependents of one node does.
use kube_task.Base.{
  String, true, ◌||◌, ◌&&◌, List, [], ◌∷◌, if◌then◌else◌, elem, Nodup, elem-append, Nodup-snoc, ◌≡◌,
  refl, arith, pred_ℤ, is_zero, is_positive,
}
use kube_task.Dag.Kahn.{Relaxed, relax_dependent, relax_dependents}

-- Each dependent loses one from its in-degree.
pub relax_dependents-indegree :
    (n : String) (s : Relaxed) (l : List String)
    → Nodup l
    → (relax_dependents s l).indegree n ≡ (if elem n l then pred_ℤ (s.indegree n) else s.indegree n)
unfolding relax_dependents
relax_dependents-indegree n s [] d = refl
relax_dependents-indegree n s (x ∷ l) d =
    ground (arith, relax_dependents-indegree n (relax_dependent s x) l d.1)

-- The dependents that reach 0 join the next batch.
pub relax_dependents-next :
    (n : String) (s : Relaxed) (l : List String)
    → Nodup l
    → elem n (relax_dependents s l).next
      ≡ (elem n s.next || (elem n l && is_zero (pred_ℤ (s.indegree n))))
unfolding relax_dependents
relax_dependents-next n s [] d = ground arith
relax_dependents-next n s (x ∷ l) d =
    ground
      (arith, elem-append n s.next (x ∷ []), relax_dependents-next n (relax_dependent s x) l d.1)

-- Nodes that have joined stand at 0, and those about to lose one do not.
record Apart (s : Relaxed) (l : List String) : Type 0 where
  joined : (n : String) → elem n s.next ≡ true → is_zero (s.indegree n) ≡ true
  open_nodes : (n : String) → elem n l ≡ true → is_positive (s.indegree n) ≡ true

relax_dependent-Apart :
    (s : Relaxed) (x : String) (l : List String)
    → Nodup (x ∷ l)
    → Apart s (x ∷ l)
    → Apart (relax_dependent s x) l
unfolding relax_dependent
relax_dependent-Apart s x l d a = record {
  joined = λ n h. ground (arith, elem-append n s.next (x ∷ []), a.joined n, a.open_nodes x);
  open_nodes = λ n h. ground (arith, a.open_nodes n);
}

relax_dependent-Nodup :
    (s : Relaxed) (x : String) (l : List String)
    → Apart s (x ∷ l)
    → Nodup s.next
    → Nodup (relax_dependent s x).next
unfolding relax_dependent
relax_dependent-Nodup s x l a d = ground (arith, a.joined x, a.open_nodes x, Nodup-snoc s.next x d)

Apart-Nodup :
    (s : Relaxed) (l : List String)
    → Nodup l
    → Apart s l
    → Nodup s.next
    → Nodup (relax_dependents s l).next
unfolding relax_dependents
Apart-Nodup s [] d a h = h
Apart-Nodup s (x ∷ l) d a h =
    Apart-Nodup (relax_dependent s x) l d.1 (relax_dependent-Apart s x l d a)
      (relax_dependent-Nodup s x l a h)

-- The next batch stays without repetitions.
pub relax_dependents-Nodup :
    (s : Relaxed) (l : List String)
    → ((n : String) → elem n s.next ≡ true → is_zero (s.indegree n) ≡ true)
    → ((n : String) → elem n l ≡ true → is_positive (s.indegree n) ≡ true)
    → Nodup l
    → Nodup s.next
    → Nodup (relax_dependents s l).next
relax_dependents-Nodup s l joined open_nodes d h =
    Apart-Nodup s l d (record { joined = joined; open_nodes = open_nodes }) h
