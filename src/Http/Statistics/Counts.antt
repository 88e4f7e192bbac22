-- ===== src/Http/Statistics/Counts.antt =====
-- The numbers of internal/api/handler/task_handler.go against the lists that they count.
use kube_task.Base.{
  eq-path, ℕ, suc, ◌+◌, String, String_discrete, Bool, true, false, none, List, [], ◌∷◌, ◌++◌, ◌==◌,
  if◌then◌else◌, keep, length, lookup, lookup-insert, get_or, ◌≡◌, refl, ◌∙◌, arith,
}
use kube_task.Api.{Task, TaskPhase, ExecutionRecord, Time, phase_eq}
use kube_task.Http.Request.{Stats, TrendPoint, ListQuery}
use kube_task.Http.Statistics.{
  phase_text, type_text, passes, filter_tasks, no_stats, count_phase, count_type, count_task,
  count_tasks, no_point, count_record, add_record, add_records, trend_of,
}

-- The counter of a phase.
abbrev pub phase_count : TaskPhase → Stats → ℕ
phase_count TaskPhase.unset s = 0
phase_count TaskPhase.pending s = s.pending
phase_count TaskPhase.running s = s.running
phase_count TaskPhase.succeeded s = s.succeeded
phase_count TaskPhase.failed s = s.failed
phase_count TaskPhase.suspended s = s.suspended

abbrev pub is_set : TaskPhase → Bool
is_set TaskPhase.unset = false
is_set _ = true

-- The query for the tasks of a phase.
abbrev pub by_phase : TaskPhase → ListQuery
by_phase p = record { page = none; page_size = none; type = ""; phase = phase_text p }

one_if : Bool → ℕ
one_if b = if b then 1 else 0

count_task-phase :
    (p : TaskPhase) (s : Stats) (t : Task)
    → is_set p ≡ true
    → phase_count p (count_task s t) ≡ phase_count p s + one_if (phase_eq p t.status.phase)
unfolding one_if count_task count_phase count_type
count_task-phase p s t h = ground arith

passes_any : (text : String) → passes "" text ≡ true
unfolding String_discrete
passes_any text = refl

passes-phase :
    (p q : TaskPhase) → is_set p ≡ true → passes (phase_text p) (phase_text q) ≡ phase_eq p q
unfolding String_discrete
passes-phase TaskPhase.unset q h = absurd cc
passes-phase TaskPhase.pending TaskPhase.unset h = refl
passes-phase TaskPhase.pending TaskPhase.pending h = refl
passes-phase TaskPhase.pending TaskPhase.running h = refl
passes-phase TaskPhase.pending TaskPhase.succeeded h = refl
passes-phase TaskPhase.pending TaskPhase.failed h = refl
passes-phase TaskPhase.pending TaskPhase.suspended h = refl
passes-phase TaskPhase.running TaskPhase.unset h = refl
passes-phase TaskPhase.running TaskPhase.pending h = refl
passes-phase TaskPhase.running TaskPhase.running h = refl
passes-phase TaskPhase.running TaskPhase.succeeded h = refl
passes-phase TaskPhase.running TaskPhase.failed h = refl
passes-phase TaskPhase.running TaskPhase.suspended h = refl
passes-phase TaskPhase.succeeded TaskPhase.unset h = refl
passes-phase TaskPhase.succeeded TaskPhase.pending h = refl
passes-phase TaskPhase.succeeded TaskPhase.running h = refl
passes-phase TaskPhase.succeeded TaskPhase.succeeded h = refl
passes-phase TaskPhase.succeeded TaskPhase.failed h = refl
passes-phase TaskPhase.succeeded TaskPhase.suspended h = refl
passes-phase TaskPhase.failed TaskPhase.unset h = refl
passes-phase TaskPhase.failed TaskPhase.pending h = refl
passes-phase TaskPhase.failed TaskPhase.running h = refl
passes-phase TaskPhase.failed TaskPhase.succeeded h = refl
passes-phase TaskPhase.failed TaskPhase.failed h = refl
passes-phase TaskPhase.failed TaskPhase.suspended h = refl
passes-phase TaskPhase.suspended TaskPhase.unset h = refl
passes-phase TaskPhase.suspended TaskPhase.pending h = refl
passes-phase TaskPhase.suspended TaskPhase.running h = refl
passes-phase TaskPhase.suspended TaskPhase.succeeded h = refl
passes-phase TaskPhase.suspended TaskPhase.failed h = refl
passes-phase TaskPhase.suspended TaskPhase.suspended h = refl

keep-by_phase :
    (p : TaskPhase) (t : Task) (ts : List Task)
    → is_set p ≡ true
    → length (filter_tasks (by_phase p) (t ∷ ts))
      ≡ one_if (phase_eq p t.status.phase) + length (filter_tasks (by_phase p) ts)
unfolding filter_tasks one_if
keep-by_phase p t ts h =
    rw (passes_any (type_text t.spec.type), passes-phase p t.status.phase h)
      (split (phase_eq p t.status.phase) _)
  where
    split :
        (b : Bool) (rest : List Task)
        → length (if b then t ∷ rest else rest) ≡ (if b then 1 else 0) + length rest
    split true rest = omega arith
    split false rest = omega arith

filter_tasks-nil : (p : TaskPhase) → length (filter_tasks (by_phase p) []) ≡ 0
unfolding filter_tasks
filter_tasks-nil p = refl

count_tasks-phase :
    (p : TaskPhase) (s : Stats) (ts : List Task)
    → is_set p ≡ true
    → phase_count p (count_tasks s ts) ≡ phase_count p s + length (filter_tasks (by_phase p) ts)
unfolding count_tasks
count_tasks-phase p s [] h = let e = filter_tasks-nil p in omega arith
count_tasks-phase p s (t ∷ ts) h =
    let rest = count_tasks-phase p (count_task s t) ts h in
    let one = count_task-phase p s t h in let step = keep-by_phase p t ts h in omega arith

total-count_tasks : (s : Stats) (ts : List Task) → (count_tasks s ts).total ≡ s.total + length ts
unfolding count_tasks count_task count_phase count_type
total-count_tasks s [] = omega arith
total-count_tasks s (t ∷ ts) = ground (arith, total-count_tasks (count_task s t) ts)

-- The total of the statistics is the number of the tasks, and the number under a phase is the number
-- of the tasks that a list with the filter for this phase finds.
pub count_tasks-filter_tasks :
    (p : TaskPhase) (ts : List Task)
    → is_set p ≡ true
    → ((count_tasks no_stats ts).total ≡ length ts)
      × (phase_count p (count_tasks no_stats ts) ≡ length (filter_tasks (by_phase p) ts))
count_tasks-filter_tasks p ts h = (
  (let e = total-count_tasks no_stats ts in omega arith),
  (let e = count_tasks-phase p no_stats ts h in let z = none_yet p in omega arith),
)
  where
    none_yet : (p : TaskPhase) → phase_count p no_stats ≡ 0
    none_yet p = ground arith

total-count_record :
    (phase : TaskPhase) (p : TrendPoint) → (count_record phase p).total ≡ suc p.total
unfolding count_record
total-count_record phase p = ground arith

module _ (date_of : Time → String) where
  -- The executions of a day.
  abbrev pub on_day : String → List ExecutionRecord → List ExecutionRecord
  on_day day = keep (λ r. date_of r.start_time == day)

  abbrev pub point_of : String → List (String × TrendPoint) → TrendPoint
  point_of day trend = get_or no_point (lookup day trend)

  point_of-add_record :
      (day : String) (trend : List (String × TrendPoint)) (r : ExecutionRecord)
      → (point_of day (add_record date_of trend r)).total
        ≡ (point_of day trend).total + one_if (date_of r.start_time == day)
  unfolding add_record one_if
  point_of-add_record day trend r = ground (
    arith,
    lookup-insert (date_of r.start_time) day
        (count_record r.phase (point_of (date_of r.start_time) trend)) trend,
    total-count_record r.phase (point_of (date_of r.start_time) trend),
    eq-path (date_of r.start_time) day,
  )

  point_of-add_records :
      (day : String) (trend : List (String × TrendPoint)) (rs : List ExecutionRecord)
      → (point_of day (add_records date_of trend rs)).total
        ≡ (point_of day trend).total + length (on_day day rs)
  unfolding add_records one_if
  point_of-add_records day trend [] = omega arith
  point_of-add_records day trend (r ∷ rs) = ground (
    arith,
    point_of-add_record day trend r,
    point_of-add_records day (add_record date_of trend r) rs,
  )

  -- All the executions of the tasks.
  abbrev pub executions : List Task → List ExecutionRecord
  executions [] = []
  executions (t ∷ ts) = t.status.execution_history ++ executions ts

  length-on_day :
      (day : String) (rs qs : List ExecutionRecord)
      → length (on_day day (rs ++ qs)) ≡ length (on_day day rs) + length (on_day day qs)
  length-on_day day [] qs = omega arith
  length-on_day day (r ∷ rs) qs = ground (arith, length-on_day day rs qs)

  point_of-trend_from :
      (day : String) (trend : List (String × TrendPoint)) (ts : List Task)
      → (point_of day (trend_of date_of trend ts)).total
        ≡ (point_of day trend).total + length (on_day day (executions ts))
  unfolding trend_of
  point_of-trend_from day trend [] = omega arith
  point_of-trend_from day trend (t ∷ ts) = ground (
    arith,
    length-on_day day t.status.execution_history (executions ts),
    point_of-add_records day trend t.status.execution_history,
    point_of-trend_from day (add_records date_of trend t.status.execution_history) ts,
  )

  -- The total of the trend for a day is the number of the executions that began on it.
  pub point_of-trend_of :
      (day : String) (ts : List Task)
      → (point_of day (trend_of date_of [] ts)).total ≡ length (on_day day (executions ts))
  point_of-trend_of day ts = point_of-trend_from day [] ts ∙ omega arith
