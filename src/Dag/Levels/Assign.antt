-- ===== src/Dag/Levels/Assign.antt =====
-- The first loop of `computeLevels`: each node's level and those of its dependencies.
use kube_task.Base.{
  ℕ, suc, ◌+◌, ◌≤◌, ◌<◌, String, true, false, List, [], ◌∷◌, ◌||◌, String_discrete, subst,
  if◌then◌else◌, ltb, elem, Nodup, Within, ◌≡◌, refl, arith, ◌⊎◌, inl, inr,
}
use kube_task.Dag.Accessors.{deps_in}
use kube_task.Dag.Validate.{DepMap}
use kube_task.Dag.Kahn.{update}
use kube_task.Dag.Kahn.Loop.{Ordered}
use kube_task.Dag.Levels.{level_above, Leveling, assign_level, assign_levels, final_leveling}

level_above-same :
    (f g : String → ℕ) (l : ℕ) (ds : List String)
    → ((d : String) → elem d ds ≡ true → f d ≡ g d)
    → level_above f l ds ≡ level_above g l ds
unfolding level_above
level_above-same f g l [] same = refl
level_above-same f g l (d ∷ ds) same = rw (same d (ground arith)) (
    level_above-same f g (let candidate = g d + 1 in if ltb l candidate then candidate else l) ds
      (λ e h. same e (ground arith)))

le-level_above : (f : String → ℕ) (l : ℕ) (ds : List String) → l ≤ level_above f l ds
unfolding level_above
le-level_above f l [] = omega arith
le-level_above f l (d ∷ ds) = ground (arith, le-level_above f l ds, le-level_above f (f d + 1) ds)

-- Every dependency lies below.
pub level_above-lt :
    (f : String → ℕ) (l : ℕ) (ds : List String) (d : String)
    → elem d ds ≡ true
    → f d < level_above f l ds
unfolding level_above
level_above-lt f l [] d h = cc
level_above-lt f l (e ∷ ds) d h = ground (
  arith,
  le-level_above f l ds,
  le-level_above f (f e + 1) ds,
  level_above-lt f l ds d,
  level_above-lt f (f e + 1) ds d,
)

-- A level above the start is one above that of some dependency.
pub level_above-attained :
    (f : String → ℕ) (l : ℕ) (ds : List String)
    → (level_above f l ds ≡ l)
      ⊎ ((d : String) × (elem d ds ≡ true) × (level_above f l ds ≡ suc (f d)))
unfolding level_above
level_above-attained f l [] = inl refl
level_above-attained f l (e ∷ ds) =
    elim (ltb l (f e + 1))
      as (λ b.
        (level_above f (if b then f e + 1 else l) ds ≡ l)
        ⊎ ((d : String) × (elem d (e ∷ ds) ≡ true)
            × (level_above f (if b then f e + 1 else l) ds ≡ suc (f d)))) [
              | true ↦ elim (level_above-attained f (f e + 1) ds) [
                | inl same ↦ inr (e, ground arith, omega arith)
                | inr (d, h, k) ↦ inr (d, ground arith, k)
              ]
              | false ↦ elim (level_above-attained f l ds) [
                | inl same ↦ inl same
                | inr (d, h, k) ↦ inr (d, ground arith, k)
              ]
            ]

module _ (deps : DepMap) where
  pub record Leveled (done : List String) (s : Leveling) : Type 0 where
    pub fixed :
        (n : String) → elem n done ≡ true → s.level_of n ≡ level_above s.level_of 0 (deps_in deps n)
    pub inside : (n : String) → elem n done ≡ true → Within (deps_in deps n) done
    pub below : (n : String) → elem n done ≡ true → s.level_of n < s.count

  module _ (x : String) (done : List String) (s : Leveling) (absent : elem x done ≡ false)
      (ahead : Within (deps_in deps x) done) (l : Leveled done s) where
    ahead_of : (n : String) → elem n (x ∷ done) ≡ true → Within (deps_in deps n) done
    ahead_of n h d k = elim (String_discrete n x) [
      | yes e ↦ ahead d (subst (λ m. elem d (deps_in deps m) ≡ true) e k)
      | no ne ↦ l.inside n (ground arith) d k
    ]

    assign_level-Leveled : Leveled (x ∷ done) (assign_level deps s x)
    unfolding assign_level
    assign_level-Leveled = record {
      fixed = λ n h. ground (
        arith,
        l.fixed n,
        level_above-same s.level_of
            (update s.level_of x (level_above s.level_of 0 (deps_in deps x))) 0 (deps_in deps n)
            (λ d k. ground (arith, ahead_of n h d k)),
      );
      inside = λ n h d k. ground (arith, ahead_of n h d k);
      below = λ n h. ground (arith, l.below n);
    }

  assign_levels-Leveled :
      (order done : List String) (s : Leveling)
      → Nodup order
      → ((n : String) → elem n order ≡ true → elem n done ≡ false)
      → Ordered (deps_in deps) done order
      → Leveled done s
      → (all : List String) × Leveled all (assign_levels deps s order)
        × ((n : String) → elem n all ≡ (elem n done || elem n order))
  unfolding assign_levels
  assign_levels-Leveled [] done s d apart o l = (done, l, λ n. ground arith)
  assign_levels-Leveled (x ∷ order) done s d apart o l =
      let (all, leveled, same) =
        assign_levels-Leveled order (x ∷ done) (assign_level deps s x) d.1
          (λ n h. ground (arith, apart n)) o.1
          (assign_level-Leveled x done s (apart x (ground arith)) o.0 l) in
      (all, leveled, λ n. ground (arith, same n))

  pub final_leveling-Leveled :
      (order : List String)
      → Nodup order
      → Ordered (deps_in deps) [] order
      → (all : List String) × Leveled all (final_leveling deps order)
        × ((n : String) → elem n all ≡ elem n order)
  unfolding final_leveling
  final_leveling-Leveled order d o =
      assign_levels-Leveled order [] (record { level_of = λ _. 0; count = 0 }) d (λ n h. refl) o
        (record { fixed = λ n h. cc; inside = λ n h. cc; below = λ n h. cc })
