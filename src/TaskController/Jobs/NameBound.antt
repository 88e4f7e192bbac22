-- ===== src/TaskController/Jobs/NameBound.antt =====
-- The length of a Job's name.
use Prim.Native.Nat.{◌+◌, ◌<◌, ◌≤◌}
use kube_task.Base.{
  [], ◌∷◌, ◌≡◌, refl, arith, decimal, len, len-decimal, len-concat, len-concat_empty, pos_part,
}
use kube_task.Api.{Time, Task}
use kube_task.Dag.{max_task_name_length}
use kube_task.TaskController.Jobs.{unix_seconds, new_job}

-- The Job of a task whose name has at most 46 bytes has, until the year 2286, a name of at most 57:
-- with the six bytes that its Pods' names add, it stays within the 63 of a label.
pub new_job-name_le :
    (now : Time) (task : Task)
    → len task.meta.name ≤ max_task_name_length
    → pos_part now < 10000000000000000000
    → len (new_job now task).meta.name + 6 ≤ 63
unfolding new_job unix_seconds
new_job-name_le now task short early =
    let dash : len "-" ≡ 1 = refl in
    let seconds = decimal (unix_seconds now) in
    omega (
      arith,
      dash,
      len-concat task.meta.name ("-" ∷ seconds ∷ []),
      len-concat "-" (seconds ∷ []),
      len-concat seconds [],
      len-concat_empty,
      len-decimal 9 (unix_seconds now) (omega arith),
    )
