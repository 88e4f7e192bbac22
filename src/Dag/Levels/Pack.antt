-- ===== src/Dag/Levels/Pack.antt =====
-- `computeLevels` as a whole: what the levels hold.
use kube_task.Base.{
  ℕ, zero, suc, ◌<◌, String, true, List, [], ◌∷◌, ◌==◌, ◌||◌, ◌&&◌, elem, elem-append, length,
  nat_eq, Nodup, Within, ◌≡◌, refl, arith, inl, inr,
}
use kube_task.Dag.Accessors.{deps_in}
use kube_task.Dag.Validate.{DepMap}
use kube_task.Dag.Kahn.Loop.{Ordered}
use kube_task.Dag.Levels.{
  level_above, empty_levels, append_at, pack_levels, final_leveling, compute_levels,
}
use kube_task.Dag.Levels.Assign.{final_leveling-Leveled, level_above-lt, level_above-attained}

-- The nodes of level `i`; past the last level there are none.
abbrev pub level_at : ℕ → List (List String) → List String
level_at i [] = []
level_at zero (l ∷ ls) = l
level_at (suc i) (l ∷ ls) = level_at i ls

level_at-append_at :
    (i j : ℕ) (n x : String) (ls : List (List String))
    → j < length ls
    → elem n (level_at i (append_at j x ls)) ≡ (elem n (level_at i ls) || (n == x && nat_eq j i))
level_at-append_at i j n x [] h = absurd (omega arith)
level_at-append_at zero zero n x (l ∷ ls) h = ground (arith, elem-append n l (x ∷ []))
level_at-append_at zero (suc j) n x (l ∷ ls) h = ground arith
level_at-append_at (suc i) zero n x (l ∷ ls) h = ground arith
level_at-append_at (suc i) (suc j) n x (l ∷ ls) h =
    ground (arith, level_at-append_at i j n x ls (omega arith))

length-append_at :
    (j : ℕ) (x : String) (ls : List (List String)) → length (append_at j x ls) ≡ length ls
length-append_at j x [] = refl
length-append_at zero x (l ∷ ls) = refl
length-append_at (suc j) x (l ∷ ls) = omega (arith, length-append_at j x ls)

level_at-pack_levels :
    (f : String → ℕ) (i : ℕ) (n : String) (ls : List (List String)) (names : List String)
    → ((m : String) → elem m names ≡ true → f m < length ls)
    → elem n (level_at i (pack_levels f ls names))
      ≡ (elem n (level_at i ls) || (elem n names && nat_eq (f n) i))
unfolding pack_levels
level_at-pack_levels f i n ls [] h = ground arith
level_at-pack_levels f i n ls (x ∷ names) h = ground (
  arith,
  level_at-append_at i (f x) n x ls (h x (ground arith)),
  level_at-pack_levels f i n (append_at (f x) x ls) names
      (λ m k. ground (arith, length-append_at (f x) x ls, h m)),
)

level_at-empty_levels : (i k : ℕ) → level_at i (empty_levels k) ≡ []
level_at-empty_levels i zero = refl
level_at-empty_levels zero (suc k) = refl
level_at-empty_levels (suc i) (suc k) = level_at-empty_levels i k

length-empty_levels : (k : ℕ) → length (empty_levels k) ≡ k
length-empty_levels zero = refl
length-empty_levels (suc k) = omega (arith, length-empty_levels k)

-- A partition of the nodes into levels, each node above its dependencies and as low as that allows.
pub record IsLeveling (deps : DepMap) (order : List String) (levels : List (List String))
    : Type 0 where
  pub placed : (n : String) → elem n order ≡ true → (i : ℕ) × (elem n (level_at i levels) ≡ true)
  pub only : (n : String) (i : ℕ) → elem n (level_at i levels) ≡ true → elem n order ≡ true
  pub unique :
      (n : String) (i j : ℕ)
      → elem n (level_at i levels) ≡ true
      → elem n (level_at j levels) ≡ true
      → i ≡ j
  pub below :
      (n d : String) (i j : ℕ)
      → elem n (level_at i levels) ≡ true
      → elem d (deps_in deps n) ≡ true
      → elem d (level_at j levels) ≡ true
      → j < i
  pub earliest :
      (n : String) (k : ℕ)
      → elem n (level_at (suc k) levels) ≡ true
      → (d : String) × (elem d (deps_in deps n) ≡ true) × (elem d (level_at k levels) ≡ true)

module _ (deps : DepMap) (order : List String) (distinct : Nodup order)
    (ordered : Ordered (deps_in deps) [] order) where
  abbrev pub level : String → ℕ
  level = (final_leveling deps order).level_of

  level_lem : (n : String) → elem n order ≡ true → level n ≡ level_above level 0 (deps_in deps n)
  level_lem n h =
      let (all, l, same) = final_leveling-Leveled deps order distinct ordered in
      l.fixed n (ground (arith, same n))

  level-lt-count : (n : String) → elem n order ≡ true → level n < (final_leveling deps order).count
  level-lt-count n h =
      let (all, l, same) = final_leveling-Leveled deps order distinct ordered in
      l.below n (ground (arith, same n))

  deps-Within : (n : String) → elem n order ≡ true → Within (deps_in deps n) order
  deps-Within n h d k =
      let (all, l, same) = final_leveling-Leveled deps order distinct ordered in
      ground (arith, same n, same d, l.inside n (ground (arith, same n)) d k)

  -- Each dependency of a node has a lower level, so the levels rank the edges.
  pub level-lt :
      (n d : String) → elem n order ≡ true → elem d (deps_in deps n) ≡ true → level d < level n
  level-lt n d h k = rw (level_lem n h) (level_above-lt level 0 (deps_in deps n) d k)

  elem-level_at :
      (n : String) (i : ℕ)
      → elem n (level_at i (compute_levels deps order)) ≡ (elem n order && nat_eq (level n) i)
  unfolding compute_levels
  elem-level_at n i = ground (
    arith,
    level_at-empty_levels i (final_leveling deps order).count,
    level_at-pack_levels level i n (empty_levels (final_leveling deps order).count) order
        (λ m k. rw length-empty_levels (level-lt-count m k)),
  )

  pub compute_levels-IsLeveling : IsLeveling deps order (compute_levels deps order)
  compute_levels-IsLeveling = record {
    placed = λ n h. (level n, ground (arith, elem-level_at n (level n)));
    only = λ n i h. ground (arith, elem-level_at n i);
    unique = λ n i j h k. ground (arith, elem-level_at n i, elem-level_at n j);
    below = λ n d i j h k m. ground (arith, elem-level_at n i, elem-level_at d j, level-lt n d);
    earliest = λ n k h. elim (level_above-attained level 0 (deps_in deps n)) [
      | inl lowest ↦ absurd (ground (arith, elem-level_at n (suc k), level_lem n))
      | inr (d, dep, found) ↦ (
        d,
        dep,
        ground (
          arith,
          elem-level_at n (suc k),
          elem-level_at d k,
          level_lem n,
          deps-Within n (ground (arith, elem-level_at n (suc k))) d dep,
        ),
      )
    ];
  }
