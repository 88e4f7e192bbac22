-- ===== src/Dag/Kahn.antt =====
-- `computeOrder` of internal/workflow/dag.go: Kahn's algorithm, a batch of ready nodes at a time.
-- A Go map is iterated in no fixed order; the model goes through it in the order of insertion. Each
-- such loop fills a map, or a slice that is sorted before it is read.
pub mod Unmet
pub mod Relax
pub mod Batch
pub mod Loop
pub mod Reverse
pub mod Order
use kube_task.Base.{
  ℕ, zero, suc, ◌+◌, String, Bool, true, false, List, [], ◌∷◌, ◌++◌, ◌==◌, if◌then◌else◌, elem,
  keep, length, nat_eq, sort_strings, join_strings, ℤ, pos, pred_ℤ, is_zero, is_positive,
}
use kube_task.Dag.Accessors.{deps_in}
use kube_task.Dag.Validate.{Checked, accepted, DepMap, invalidf, cyclic_dependency}

-- A map with a value for every name: that of a missing key is Go's zero value.
abbrev pub update {ℓ} : {A : Type ℓ} → (String → A) → String → A → String → A
update f k v n = if k == n then v else f n

-- The first loop: a node's in-degree is the number of its dependencies.
unfoldable pub initial_indegree : List String → DepMap → String → ℤ
initial_indegree names deps name =
    if elem name names then pos (length (deps_in deps name)) else pos 0

-- The second loop reverses the edges.
unfoldable pub reverse_deps_of :
    String → (String → List String) → List String → String → List String
reverse_deps_of name dependents [] = dependents
reverse_deps_of name dependents (dep ∷ deps) =
    reverse_deps_of name (update dependents dep (dependents dep ++ name ∷ [])) deps

unfoldable pub reverse_deps : (String → List String) → DepMap → String → List String
unfolding reverse_deps_of
reverse_deps dependents [] = dependents
reverse_deps dependents ((name, deps) ∷ rest) =
    reverse_deps (reverse_deps_of name dependents deps) rest

unfoldable pub dependents_of : DepMap → String → List String
unfolding reverse_deps
dependents_of deps name = sort_strings (reverse_deps (λ _. []) deps name)

-- What the loop over `current` changes.
pub record Relaxed : Type 0 where
  pub indegree : String → ℤ
  pub next : List String

-- `indegree[dependent]--`, and the dependent joins the next batch when that reaches 0.
unfoldable pub relax_dependent : Relaxed → String → Relaxed
relax_dependent s dependent =
    let indegree = update s.indegree dependent (pred_ℤ (s.indegree dependent)) in
    record {
      indegree = indegree;
      next = if is_zero (indegree dependent) then s.next ++ dependent ∷ [] else s.next;
    }

unfoldable pub relax_dependents : Relaxed → List String → Relaxed
unfolding relax_dependent
relax_dependents s [] = s
relax_dependents s (dependent ∷ rest) = relax_dependents (relax_dependent s dependent) rest

unfoldable pub relax_batch : (String → List String) → Relaxed → List String → Relaxed
unfolding relax_dependents
relax_batch dependents s [] = s
relax_batch dependents s (name ∷ rest) =
    relax_batch dependents (relax_dependents s (dependents name)) rest

pub record Progress : Type 0 where
  pub order : List String
  pub current : List String
  pub indegree : String → ℤ

-- The body of the `for len(current) > 0` loop.
unfoldable pub next_batch : (String → List String) → Progress → Progress
unfolding relax_batch
next_batch dependents p =
    let s = relax_batch dependents (record { indegree = p.indegree; next = [] }) p.current in
    record { order = p.order ++ p.current; current = sort_strings s.next; indegree = s.indegree }

unfoldable pub is_empty : List String → Bool
is_empty [] = true
is_empty (x ∷ xs) = false

-- The loop, on fuel: a node joins the order once, so one round for each node and one more suffice.
unfoldable pub run_batches : (String → List String) → ℕ → Progress → Progress
unfolding next_batch is_empty
run_batches dependents zero p = p
run_batches dependents (suc fuel) p =
    let rest = run_batches dependents fuel (next_batch dependents p) in
    if is_empty p.current then p else rest

unfoldable pub start_batches : List String → DepMap → Progress
unfolding initial_indegree
start_batches names deps = record {
  order = [];
  current = sort_strings (keep (λ name. is_zero (initial_indegree names deps name)) names);
  indegree = initial_indegree names deps;
}

unfoldable pub final_batches : List String → DepMap → Progress
unfolding run_batches dependents_of start_batches
final_batches names deps =
    run_batches (dependents_of deps) (length names + 1) (start_batches names deps)

-- The order, or the nodes that were never reached.
unfoldable pub compute_order : List String → DepMap → Checked (List String)
unfolding final_batches invalidf
compute_order names deps =
    let p = final_batches names deps in
    if nat_eq (length p.order) (length names)
    then accepted p.order
    else invalidf cyclic_dependency (
        "workflow contains a dependency cycle involving ["
        ∷ join_strings " " (sort_strings (keep (λ name. is_positive (p.indegree name)) names))
        ∷ "]"
        ∷ [])
