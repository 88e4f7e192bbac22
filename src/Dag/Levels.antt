-- ===== src/Dag/Levels.antt =====
-- `computeLevels` of internal/workflow/dag.go.
pub mod Assign
pub mod Pack
use kube_task.Base.{ℕ, zero, suc, ◌+◌, String, List, [], ◌∷◌, ◌++◌, if◌then◌else◌, ltb}
use kube_task.Dag.Accessors.{deps_in}
use kube_task.Dag.Validate.{DepMap}
use kube_task.Dag.Kahn.{update}

-- `level = max(level, levelOf[dep] + 1)` over the dependencies.
unfoldable pub level_above : (String → ℕ) → ℕ → List String → ℕ
level_above level_of level [] = level
level_above level_of level (dep ∷ deps) =
    level_above level_of
      (let candidate = level_of dep + 1 in if ltb level candidate then candidate else level) deps

-- `count` is `maxLevel + 1`, which starts at 0.
pub record Leveling : Type 0 where
  pub level_of : String → ℕ
  pub count : ℕ

unfoldable pub assign_level : DepMap → Leveling → String → Leveling
unfolding level_above
assign_level deps s name =
    let level = level_above s.level_of 0 (deps_in deps name) in
    record {
      level_of = update s.level_of name level;
      count = if ltb s.count (level + 1) then level + 1 else s.count;
    }

unfoldable pub assign_levels : DepMap → Leveling → List String → Leveling
unfolding assign_level
assign_levels deps s [] = s
assign_levels deps s (name ∷ rest) = assign_levels deps (assign_level deps s name) rest

-- `make([][]string, n)`
abbrev pub empty_levels : ℕ → List (List String)
empty_levels zero = []
empty_levels (suc n) = [] ∷ empty_levels n

-- `levels[i] = append(levels[i], name)`; `pack_levels` never asks for a level that is not there.
abbrev pub append_at : ℕ → String → List (List String) → List (List String)
append_at i name [] = []
append_at zero name (l ∷ ls) = (l ++ name ∷ []) ∷ ls
append_at (suc i) name (l ∷ ls) = l ∷ append_at i name ls

unfoldable pub pack_levels : (String → ℕ) → List (List String) → List String → List (List String)
pack_levels level_of levels [] = levels
pack_levels level_of levels (name ∷ rest) =
    pack_levels level_of (append_at (level_of name) name levels) rest

unfoldable pub final_leveling : DepMap → List String → Leveling
unfolding assign_levels
final_leveling deps order = assign_levels deps (record { level_of = λ _. 0; count = 0 }) order

unfoldable pub compute_levels : DepMap → List String → List (List String)
unfolding final_leveling pack_levels
compute_levels deps order =
    let s = final_leveling deps order in pack_levels s.level_of (empty_levels s.count) order
