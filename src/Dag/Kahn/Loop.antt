-- ===== src/Dag/Kahn/Loop.antt =====
-- The invariant of Kahn's loop, and what it leaves when the loop ends.
use kube_task.Base.{
  ℕ, zero, suc, ◌+◌, ◌≤◌, ◌<◌, String, true, false, not, ◌||◌, ◌&&◌, List, [], ◌∷◌, ◌++◌, elem,
  Nodup, nat_eq, length, length-append, elem-append, Nodup-append, Nodup-append_right,
  Nodup-append_apart, sort_strings, Within, length-le_of_Within, elem-sort_strings,
  Nodup-sort_strings, ◌≡◌, refl, arith, pos, Bool-cases, inl, inr, ◌⊎◌,
}
use kube_task.Dag.Kahn.{Progress, Relaxed, next_batch, is_empty, run_batches, relax_batch}
use kube_task.Dag.Kahn.Unmet.{unmet, unmet-same, unmet-append-le, unmet_zero, unmet_of_nil}
use kube_task.Dag.Kahn.Batch.{Edges, Counts, push, elem-push, relax_batch-Counts}

module _ (deps : String → List String) where
  -- Every node stands behind the nodes that it depends on, those of `seen` being ahead of all.
  abbrev pub Ordered : List String → List String → Type 0
  Ordered seen [] = Unit
  Ordered seen (x ∷ xs) = Within (deps x) seen × Ordered (x ∷ seen) xs

  -- A batch whose nodes have all their dependencies ahead may follow.
  Ordered-append :
      (seen order batch : List String)
      → Ordered seen order
      → ((n d : String)
          → elem n batch ≡ true
          → elem d (deps n) ≡ true
          → (elem d seen || elem d order) ≡ true)
      → Ordered seen (order ++ batch)
  Ordered-append seen [] [] o h = tt
  Ordered-append seen [] (x ∷ batch) o h = (
    λ d k. ground (arith, h x d),
    Ordered-append (x ∷ seen) [] batch tt (λ n d m k. ground (arith, h n d)),
  )
  Ordered-append seen (y ∷ order) batch o h =
      (o.0, Ordered-append (y ∷ seen) order batch o.1 (λ n d m k. ground (arith, h n d m k)))

is_empty-cases :
    (xs : List String) → (is_empty xs ≡ true) × (xs ≡ []) ⊎ (is_empty xs ≡ false) × (0 < length xs)
unfolding is_empty
is_empty-cases [] = inl (refl, refl)
is_empty-cases (x ∷ xs) = inr (refl, omega arith)

module _ {deps dependents : String → List String} (edges : Edges deps dependents)
    (names : List String) where
  pub record Inv (p : Progress) : Type 0 where
    pub degree : (n : String) → p.indegree n ≡ pos (unmet p.order (deps n))
    pub known : Within (p.order ++ p.current) names
    pub ready :
        (n : String)
        → elem n names ≡ true
        → elem n (p.order ++ p.current) ≡ nat_eq (unmet p.order (deps n)) 0
    pub distinct : Nodup (p.order ++ p.current)
    pub ordered : Ordered deps [] p.order

  module _ (inner : (n : String) → elem n names ≡ false → deps n ≡ []) (p : Progress)
      (inv : Inv p) where
    abbrev relaxed : Relaxed
    relaxed = relax_batch dependents (record { indegree = p.indegree; next = [] }) p.current

    round : Counts edges p.order (push p.current p.order) relaxed
    round =
        relax_batch-Counts edges p.order p.current p.order
          (record { indegree = p.indegree; next = [] })
          (Nodup-append_right p.order p.current inv.distinct)
          (λ n h. Nodup-append_apart p.order p.current n inv.distinct h)
          (record {
            degree = inv.degree;
            bounded = λ n. omega arith;
            joined = λ n. ground arith;
            next_nodup = tt;
          })

    -- `push` and `++` hold the same nodes.
    unmet_after :
        (n : String)
        → unmet (push p.current p.order) (deps n) ≡ unmet (p.order ++ p.current) (deps n)
    unmet_after n =
        unmet-same (push p.current p.order) (p.order ++ p.current) (deps n)
          (λ m. ground (arith, elem-push m p.current p.order, elem-append m p.order p.current))

    elem-next :
        (n : String)
        → elem n (sort_strings relaxed.next) ≡ (
            nat_eq (unmet (p.order ++ p.current) (deps n)) 0
            && not (nat_eq (unmet p.order (deps n)) 0))
    elem-next n = ground (arith, elem-sort_strings n relaxed.next, round.joined n, unmet_after n)

    next-known : (n : String) → elem n (sort_strings relaxed.next) ≡ true → elem n names ≡ true
    next-known n h = elim (Bool-cases (elem n names)) [
      | inl e ↦ e
      | inr e ↦ ground (arith, elem-next n, unmet_of_nil p.order (deps n) (inner n e))
    ]

    pub next_batch-Inv : Inv (next_batch dependents p)
    unfolding next_batch
    next_batch-Inv = record {
      degree = λ n. ground (arith, round.degree n, unmet_after n);
      known = λ n h. ground (
        arith,
        inv.known n,
        next-known n,
        elem-append n (p.order ++ p.current) (sort_strings relaxed.next),
      );
      ready = λ n h. ground (
        arith,
        inv.ready n h,
        elem-next n,
        unmet-append-le p.order p.current (deps n),
        elem-append n (p.order ++ p.current) (sort_strings relaxed.next),
      );
      distinct =
          Nodup-append (p.order ++ p.current) (sort_strings relaxed.next) inv.distinct
            (Nodup-sort_strings relaxed.next round.next_nodup)
            (λ n h. ground (arith, inv.known n h, inv.ready n (inv.known n h), elem-next n));
      ordered = Ordered-append deps [] p.order p.current inv.ordered (λ n d m k. ground (
        arith,
        elem-append n p.order p.current,
        inv.known n (ground (arith, elem-append n p.order p.current)),
        inv.ready n (inv.known n (ground (arith, elem-append n p.order p.current))),
        unmet_zero p.order (deps n)
            (ground (
              arith,
              elem-append n p.order p.current,
              inv.ready n (inv.known n (ground (arith, elem-append n p.order p.current))),
            ))
            d k,
      ));
    }

  length-order-le : (p : Progress) → Inv p → length p.order + length p.current ≤ length names
  length-order-le p inv = omega (
    arith,
    length-append p.order p.current,
    length-le_of_Within (p.order ++ p.current) names inv.distinct inv.known,
  )

  length-next_batch :
      (p : Progress) → length (next_batch dependents p).order ≡ length p.order + length p.current
  unfolding next_batch
  length-next_batch p = length-append p.order p.current

  -- With enough fuel the loop ends by its test: no node is left to relax.
  pub run_batches-Inv :
      (inner : (n : String) → elem n names ≡ false → deps n ≡ []) (fuel : ℕ) (p : Progress)
      → length names < fuel + length p.order
      → Inv p
      → Inv (run_batches dependents fuel p) × ((run_batches dependents fuel p).current ≡ [])
  unfolding run_batches
  run_batches-Inv inner zero p h inv = absurd (omega (arith, length-order-le p inv))
  run_batches-Inv inner (suc fuel) p h inv = elim (is_empty-cases p.current) [
    | inl (stops, empty) ↦ rw stops (inv, empty)
    | inr (goes, more) ↦ rw goes (
        run_batches-Inv inner fuel (next_batch dependents p) (omega (arith, length-next_batch p))
          (next_batch-Inv inner p inv))
  ]
