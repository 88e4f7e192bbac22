-- ===== src/Notification/Workers/Inv.antt =====
-- What holds of the dispatcher and its two workers whenever both have been let go on.
use kube_task.Base.{
  ℕ, ◌+◌, ◌≤◌, ◌<◌, String, Bool, true, false, List, [], ◌∷◌, ◌++◌, if◌then◌else◌, elem, length,
  length-append, keys, lookup, is_some, is_some-lookup, keys-insert, ltb, ◌≡◌, arith, Bool-cases,
  inl, inr,
}
use kube_task.Api.{Time}
use kube_task.Notification.Event.{Event}
use kube_task.Notification.Queue.{
  DeliveryState, Dispatcher, queue_capacity, completed_capacity, prune, publish, enqueue, evict,
  finish, mark_sending, new_dispatcher,
}
use kube_task.Notification.Workers.{
  Worker, System, start_system, Work, receive, begin, complete, abandon, leave, drop_event, Step,
  observe, work_first, work_second, cancel, stop, Reach, here, next,
}
use kube_task.Notification.Workers.Trim.{
  times, times-append, event_ids, event_ids-append, keys-append, prune_entries-Trimmed,
  evict-Trimmed, evict-lt,
}

abbrev pub worker_ids : Worker → List String
worker_ids (Worker.received e) = e.id ∷ []
worker_ids (Worker.sending e) = e.id ∷ []
worker_ids _ = []

-- How often an id waits, is in a worker's hands, or is kept as handled.
abbrev pub tracked : String → Dispatcher → Worker → Worker → ℕ
tracked n d first second =
    times n (event_ids d.queue)
    + times n (worker_ids first)
    + times n (worker_ids second)
    + times n (keys d.completed)

pub record Inv (d : Dispatcher) (first second : Worker) : Type 0 where
  pub room : length d.queue ≤ queue_capacity
  pub history : length d.completed ≤ completed_capacity
  pub once : (n : String) → tracked n d first second ≤ 1
  pub known : (n : String) → 0 < tracked n d first second → elem n (keys d.records) ≡ true

prune-Inv :
    (now : Time) (d : Dispatcher) (first second : Worker)
    → Inv d first second
    → Inv (prune now d) first second
unfolding prune
prune-Inv now d first second inv =
    let t = prune_entries-Trimmed now d.completed d.records in
    record {
      room = inv.room;
      history = omega (arith, t.shorter, inv.history);
      once = λ n. omega (arith, t.fewer n, inv.once n);
      known = λ n h.
          t.kept n (omega (arith, t.fewer n, inv.once n)) (inv.known n (omega (arith, t.fewer n)));
    }

publish-Inv :
    (e : Event) (d : Dispatcher) (first second : Worker)
    → is_some (lookup e.id d.records) ≡ false
    → Inv d first second
    → Inv (publish e d).0 first second
unfolding publish
publish-Inv e d first second h inv = elim (Bool-cases (ltb (length d.queue) queue_capacity)) [
  | inr full ↦ rw full inv
  | inl free ↦ rw free (record {
    room = added-le free;
    history = inv.history;
    once = λ n. ground (
      arith,
      event_ids-append d.queue (e ∷ []),
      times-append n (event_ids d.queue) (e.id ∷ []),
      inv.once n,
      inv.known n,
      is_some-lookup e.id d.records,
    );
    known = λ n k. ground (
      arith,
      event_ids-append d.queue (e ∷ []),
      times-append n (event_ids d.queue) (e.id ∷ []),
      inv.known n,
      keys-insert e.id n DeliveryState.pending d.records,
    );
  })
]
  where
    added-le :
        ltb (length d.queue) queue_capacity ≡ true → length (d.queue ++ e ∷ []) ≤ queue_capacity
    added-le free = ground (arith, length-append d.queue (e ∷ []))

enqueue-Inv :
    (now : Time) (e : Event) (d : Dispatcher) (first second : Worker)
    → Inv d first second
    → Inv (enqueue now e d).0 first second
unfolding enqueue
enqueue-Inv now e d first second inv =
    elim d.stopped
      as (λ b.
        Inv
          (if b
            then (d, false)
            else if is_some (lookup e.id (prune now d).records)
            then (prune now d, false)
            else publish e (prune now d)).0
          first second) [
            | true ↦ inv
            | false ↦ elim (Bool-cases (is_some (lookup e.id (prune now d).records))) [
              | inl known ↦ rw known (prune-Inv now d first second inv)
              | inr fresh ↦ rw fresh (
                  publish-Inv e (prune now d) first second fresh (prune-Inv now d first second inv))
            ]
          ]

mark_sending-Inv :
    (e : Event) (d : Dispatcher) (second : Worker)
    → Inv d (Worker.received e) second
    → Inv (mark_sending e d) (Worker.sending e) second
unfolding mark_sending
mark_sending-Inv e d second inv = record {
  room = inv.room;
  history = inv.history;
  once = λ n. inv.once n;
  known = λ n h. ground (arith, inv.known n, keys-insert e.id n DeliveryState.sending d.records);
}

finish-Inv :
    (e : Event) (state : DeliveryState) (now : Time) (d : Dispatcher) (second : Worker)
    → Inv d (Worker.sending e) second
    → Inv (finish e.id state now d) Worker.idle second
unfolding finish
finish-Inv e state now d second inv =
    let t = evict-Trimmed d.completed d.records in
    let r = evict d.completed d.records in
    record {
      room = inv.room;
      history = omega (arith, length-append r.1 ((e.id, now) ∷ []), evict-lt d.completed d.records);
      once = λ n. ground (
        arith,
        keys-append r.1 ((e.id, now) ∷ []),
        times-append n (keys r.1) (e.id ∷ []),
        t.fewer n,
        inv.once n,
      );
      known = λ n h. ground (
        arith,
        keys-append r.1 ((e.id, now) ∷ []),
        times-append n (keys r.1) (e.id ∷ []),
        t.fewer n,
        t.kept n,
        inv.once n,
        inv.known n,
        keys-insert e.id n state r.0,
      );
    }

Work-Inv :
    {cancelled : Bool} {d d' : Dispatcher} {w w' : Worker} (second : Worker)
    → Work cancelled d w d' w'
    → Inv d w second
    → Inv d' w' second
Work-Inv {d = d} second (receive e rest h) inv = record {
  room = ground (arith, inv.room);
  history = inv.history;
  once = λ n. ground (arith, inv.once n);
  known = λ n k. ground (arith, inv.known n);
}
Work-Inv second (begin e) inv = mark_sending-Inv e _ second inv
Work-Inv second (complete e state now final) inv = finish-Inv e state now _ second inv
Work-Inv second (abandon e h) inv = record {
  room = inv.room;
  history = inv.history;
  once = λ n. ground (arith, inv.once n);
  known = λ n k. ground (arith, inv.known n);
}
Work-Inv second (leave h) inv = record {
  room = inv.room;
  history = inv.history;
  once = λ n. inv.once n;
  known = λ n k. inv.known n k;
}
Work-Inv second (drop_event e h) inv = record {
  room = inv.room;
  history = inv.history;
  once = λ n. ground (arith, inv.once n);
  known = λ n k. ground (arith, inv.known n);
}

Inv-swap : {d : Dispatcher} {first second : Worker} → Inv d first second → Inv d second first
Inv-swap inv = record {
  room = inv.room;
  history = inv.history;
  once = λ n. omega (arith, inv.once n);
  known = λ n h. inv.known n (omega arith);
}

abbrev pub SystemInv : System → Type 0
SystemInv s = Inv s.dispatcher s.first s.second

Step-Inv : {s t : System} → Step s t → SystemInv s → SystemInv t
Step-Inv {s} (observe e now) inv = enqueue-Inv now e s.dispatcher s.first s.second inv
Step-Inv {s} (work_first d w h) inv = Work-Inv s.second h inv
Step-Inv {s} (work_second d w h) inv = Inv-swap (Work-Inv s.first h (Inv-swap inv))
Step-Inv cancel inv = inv
Step-Inv (stop h) inv = record {
  room = inv.room;
  history = inv.history;
  once = inv.once;
  known = inv.known;
}

start-Inv : SystemInv start_system
unfolding start_system new_dispatcher
start-Inv = record {
  room = omega arith;
  history = omega arith;
  once = λ n. omega arith;
  known = λ n h. absurd (omega arith);
}

-- In every state that the workers and the observed Jobs reach, at most 128 events wait and at most
-- 4096 handled ids are kept. No id is twice among the events that wait, those in the hands of the
-- workers and the handled ids, and each of these ids has a record.
pub Reach-Inv : {s : System} → Reach s → SystemInv s
Reach-Inv here = start-Inv
Reach-Inv (next r h) = Step-Inv h (Reach-Inv r)
