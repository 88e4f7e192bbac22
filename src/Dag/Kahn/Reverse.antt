-- ===== src/Dag/Kahn/Reverse.antt =====
-- The reversed edges: a node's dependents are the nodes that depend on it, each once.
use kube_task.Base.{
  String, true, false, ◌||◌, List, [], ◌∷◌, ◌++◌, if◌then◌else◌, elem, keys, Nodup, elem-append,
  Nodup-snoc, elem-sort_strings, Nodup-sort_strings, ◌≡◌, refl, arith,
}
use kube_task.Dag.Accessors.{deps_in}
use kube_task.Dag.Validate.{DepMap}
use kube_task.Dag.Kahn.{update, reverse_deps_of, reverse_deps, dependents_of}
use kube_task.Dag.Kahn.Batch.{Edges}

-- No node has one entry twice, nor an entry one dependency twice.
abbrev pub Distinct : DepMap → Type 0
Distinct [] = Unit
Distinct ((name, deps) ∷ rest) = (elem name (keys rest) ≡ false) × Nodup deps × Distinct rest

reverse_deps_of_lem :
    (name m : String) (f : String → List String) (deps : List String)
    → Nodup deps
    → reverse_deps_of name f deps m ≡ (if elem m deps then f m ++ name ∷ [] else f m)
unfolding reverse_deps_of
reverse_deps_of_lem name m f [] d = refl
reverse_deps_of_lem name m f (x ∷ deps) d =
    ground (arith, reverse_deps_of_lem name m (update f x (f x ++ name ∷ [])) deps d.1)

pub deps_in_absent : (n : String) (deps : DepMap) → elem n (keys deps) ≡ false → deps_in deps n ≡ []
deps_in_absent n [] h = refl
deps_in_absent n ((name, ds) ∷ rest) h = ground (arith, deps_in_absent n rest)

elem-reverse_deps :
    (n m : String) (f : String → List String) (deps : DepMap)
    → Distinct deps
    → elem n (reverse_deps f deps m) ≡ (elem n (f m) || elem m (deps_in deps n))
unfolding reverse_deps
elem-reverse_deps n m f [] d = ground arith
elem-reverse_deps n m f ((name, ds) ∷ rest) d = ground (
  arith,
  elem-reverse_deps n m (reverse_deps_of name f ds) rest d.2,
  reverse_deps_of_lem name m f ds d.1,
  elem-append n (f m) (name ∷ []),
  deps_in_absent name rest d.0,
)

Nodup-reverse_deps :
    (m : String) (f : String → List String) (deps : DepMap)
    → Distinct deps
    → Nodup (f m)
    → ((n : String) → elem n (keys deps) ≡ true → elem n (f m) ≡ false)
    → Nodup (reverse_deps f deps m)
unfolding reverse_deps
Nodup-reverse_deps m f [] d h apart = h
Nodup-reverse_deps m f ((name, ds) ∷ rest) d h apart =
    Nodup-reverse_deps m (reverse_deps_of name f ds) rest d.2
      (ground (arith, reverse_deps_of_lem name m f ds d.1, Nodup-snoc (f m) name h, apart name))
      (λ n k.
        ground
          (arith, reverse_deps_of_lem name m f ds d.1, elem-append n (f m) (name ∷ []), apart n))

Nodup-deps_in : (n : String) (deps : DepMap) → Distinct deps → Nodup (deps_in deps n)
Nodup-deps_in n [] d = tt
Nodup-deps_in n ((name, ds) ∷ rest) d = ground (arith, Nodup-deps_in n rest d.2)

pub Distinct-Edges : (deps : DepMap) → Distinct deps → Edges (deps_in deps) (dependents_of deps)
unfolding dependents_of
Distinct-Edges deps d = record {
  deps_nodup = λ n. Nodup-deps_in n deps d;
  dependents_nodup =
      λ m. Nodup-sort_strings _ (Nodup-reverse_deps m (λ _. []) deps d tt (λ n h. refl));
  reversed = λ m n. ground (
    arith,
    elem-sort_strings n (reverse_deps (λ _. []) deps m),
    elem-reverse_deps n m (λ _. []) deps d,
  );
}
