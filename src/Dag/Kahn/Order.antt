-- ===== src/Dag/Kahn/Order.antt =====
-- What `computeOrder` returns.
use kube_task.Base.{
  ap, sym, ℕ, zero, suc, ◌+◌, ◌≤◌, ◌<◌, String, Bool, true, false, List, [], ◌∷◌, ◌++◌,
  if◌then◌else◌, elem, keep, length, nat_eq, Nodup, Nodup-append_left, Within, Within-of_length,
  length-le_of_Within, elem-sort_strings, Nodup-sort_strings, append-nil, ◌≡◌, arith, pos, is_zero,
  Bool-cases, inl, inr,
}
use kube_task.Dag.Accessors.{deps_in}
use kube_task.Dag.Validate.{DepMap, accepted, rejected, cyclic_dependency, ValidationError}
use kube_task.Dag.Kahn.{
  dependents_of, initial_indegree, start_batches, final_batches, compute_order, Progress,
}
use kube_task.Dag.Kahn.Unmet.{unmet, unmet-nil, unmet_zero_of_elem, unmet_of_nil}
use kube_task.Dag.Kahn.Batch.{Edges}
use kube_task.Dag.Kahn.Loop.{Ordered, Inv, run_batches-Inv}
use kube_task.Dag.Kahn.Reverse.{Distinct, Distinct-Edges}

-- The nodes and edges that validation lets through.
pub record IsValid (names : List String) (deps : DepMap) : Type 0 where
  pub names_distinct : Nodup names
  pub deps_distinct : Distinct deps
  pub inner : (n : String) → elem n names ≡ false → deps_in deps n ≡ []
  pub closed : (n : String) → Within (deps_in deps n) names

-- `rank` falls along every dependency, so no path of dependencies comes back to where it began.
abbrev pub IsRanked : (String → ℕ) → DepMap → Type 0
IsRanked rank deps = (n d : String) → elem d (deps_in deps n) ≡ true → rank d < rank n

-- A topological order of the nodes: each once, behind its dependencies.
pub record IsTopological (names : List String) (deps : DepMap) (order : List String) : Type 0 where
  pub distinct : Nodup order
  pub sound : Within order names
  pub complete : Within names order
  pub ordered : Ordered (deps_in deps) [] order

elem-keep :
    (p : String → Bool) (n : String) (xs : List String)
    → elem n (keep p xs) ≡ (if p n then elem n xs else false)
elem-keep p n [] = ground arith
elem-keep p n (x ∷ xs) = ground (arith, elem-keep p n xs)

Nodup-keep : (p : String → Bool) (xs : List String) → Nodup xs → Nodup (keep p xs)
Nodup-keep p [] d = tt
Nodup-keep p (x ∷ xs) d = ground (arith, elem-keep p x xs, Nodup-keep p xs d.1)

module _ (names : List String) (deps : DepMap) (valid : IsValid names deps) where
  abbrev edges : Edges (deps_in deps) (dependents_of deps)
  edges = Distinct-Edges deps valid.deps_distinct

  start_degree : (n : String) → initial_indegree names deps n ≡ pos (unmet [] (deps_in deps n))
  unfolding initial_indegree
  start_degree n = elim (Bool-cases (elem n names)) [
    | inl e ↦ rw e (ap pos (sym (unmet-nil (deps_in deps n))))
    | inr e ↦ ground (arith, unmet_of_nil [] (deps_in deps n) (valid.inner n e))
  ]

  elem-start :
      (n : String)
      → elem n (start_batches names deps).current
        ≡ (if nat_eq (unmet [] (deps_in deps n)) 0 then elem n names else false)
  unfolding start_batches
  elem-start n = ground (
    arith,
    start_degree n,
    elem-sort_strings n (keep (λ name. is_zero (initial_indegree names deps name)) names),
    elem-keep (λ name. is_zero (initial_indegree names deps name)) n names,
  )

  start-Inv : Inv edges names (start_batches names deps)
  unfolding start_batches
  start-Inv = record {
    degree = start_degree;
    known = λ n h. ground (arith, elem-start n);
    ready = λ n h. ground (arith, elem-start n);
    distinct = Nodup-sort_strings _ (
        Nodup-keep (λ name. is_zero (initial_indegree names deps name)) names valid.names_distinct);
    ordered = tt;
  }

  final-Inv : Inv edges names (final_batches names deps) × ((final_batches names deps).current ≡ [])
  unfolding final_batches
  final-Inv =
      run_batches-Inv edges names valid.inner (length names + 1) (start_batches names deps)
        (omega arith) start-Inv

  final-order : (p : Progress) → p.current ≡ [] → p.order ++ p.current ≡ p.order
  final-order p e = rw e (append-nil p.order)

  abbrev last : Progress
  last = final_batches names deps

  elem-last : (n : String) → elem n last.order ≡ elem n (last.order ++ last.current)
  elem-last n = rw (final-order last final-Inv.1)

  Nodup-last : Nodup last.order
  Nodup-last = Nodup-append_left last.order last.current final-Inv.0.distinct

  last-Within : Within last.order names
  last-Within n h = final-Inv.0.known n (ground (arith, elem-last n))

  -- The order that it returns is a topological order of all nodes.
  pub compute_order-IsTopological :
      (order : List String)
      → compute_order names deps ≡ accepted order
      → IsTopological names deps order
  unfolding compute_order
  compute_order-IsTopological order e =
      elim (Bool-cases (nat_eq (length last.order) (length names))) [
        | inl same ↦
            let placed : last.order ≡ order = ground arith in
            rw (← placed) (record {
              distinct = Nodup-last;
              sound = last-Within;
              complete = Within-of_length last.order names Nodup-last last-Within (ground arith);
              ordered = final-Inv.0.ordered;
            })
        | inr other ↦ ground arith
      ]

  -- With a ranking, every node gets its place.
  all_placed :
      (rank : String → ℕ)
      → IsRanked rank deps
      → (k : ℕ) (n : String) → rank n < k
      → elem n names ≡ true
      → elem n last.order ≡ true
  all_placed rank ranked zero n lt h = elim lt [ ]
  all_placed rank ranked (suc k) n lt h = ground (
    arith,
    elem-last n,
    final-Inv.0.ready n h,
    unmet_zero_of_elem last.order (deps_in deps n)
        (λ d m. all_placed rank ranked k d (omega (arith, ranked n d m)) (valid.closed n d m)),
  )

  -- Where the edges have a ranking it returns an order.
  pub compute_order_total :
      (rank : String → ℕ)
      → IsRanked rank deps
      → (order : List String) × (compute_order names deps ≡ accepted order)
  unfolding compute_order
  compute_order_total rank ranked =
      let short : length names ≤ length last.order =
        length-le_of_Within names last.order valid.names_distinct
          (λ n h. all_placed rank ranked (suc (rank n)) n (omega arith) h) in
      let long : length last.order ≤ length names =
        length-le_of_Within last.order names Nodup-last last-Within in
      (last.order, ground arith)

  -- Its only error is that of a cycle: the edges then have no ranking.
  pub compute_order_error :
      (e : ValidationError)
      → compute_order names deps ≡ rejected e
      → (e.reason ≡ cyclic_dependency) × ((rank : String → ℕ) → ¬ (IsRanked rank deps))
  unfolding compute_order
  compute_order_error e h =
      (ground arith, λ rank ranked. let (order, found) = compute_order_total rank ranked in cc)
