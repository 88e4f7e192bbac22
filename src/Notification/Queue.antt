-- ===== src/Notification/Queue.antt =====
-- `enqueue`, `prune` and `finish` of internal/notification/dispatcher.go: what the dispatcher does
-- while it holds its mutex. The buffered channel is the list of the events that wait.
use kube_task.Base.{
  ℕ, String, Bool, true, false, List, [], ◌∷◌, ◌++◌, if◌then◌else◌, length, lookup, insert,
  delete_key, is_some, ltb, leb, ℤ, pos, ltb_ℤ, ◌-ℤ◌,
}
use kube_task.Api.{Time}
use kube_task.Notification.Event.{Event}

abbrev pub queue_capacity : ℕ
queue_capacity = 128

abbrev pub completed_capacity : ℕ
completed_capacity = 4096

-- A day.
abbrev pub completed_ttl : ℤ
completed_ttl = pos 86400000000000

pub data DeliveryState : Type 0 where
  pending sending delivered rejected exhausted : DeliveryState

-- The states that `deliver` can end in.
abbrev pub is_final : DeliveryState → Bool
is_final DeliveryState.pending = false
is_final DeliveryState.sending = false
is_final _ = true

-- `completed` has the ids that were handled, with the time, the oldest first.
pub record Dispatcher : Type 0 where
  pub queue : List Event
  pub stopped : Bool
  pub records : List (String × DeliveryState)
  pub completed : List (String × Time)

unfoldable pub new_dispatcher : Dispatcher
new_dispatcher = record { queue = []; stopped = false; records = []; completed = [] }

unfoldable pub prune_entries :
    Time
    → List (String × Time)
    → List (String × DeliveryState)
    → List (String × DeliveryState) × List (String × Time)
prune_entries now [] records = (records, [])
prune_entries now ((id, at) ∷ rest) records =
    let pruned = prune_entries now rest (delete_key id records) in
    if ltb_ℤ (now -ℤ at) completed_ttl then (records, (id, at) ∷ rest) else pruned

unfoldable pub prune : Time → Dispatcher → Dispatcher
prune now d =
    let (records, completed) = prune_entries now d.completed d.records in
    record d { records = records; completed = completed }

-- The `select` of `enqueue`: the event is published if the channel has room.
unfoldable pub publish : Event → Dispatcher → Dispatcher × Bool
publish e d =
    if ltb (length d.queue) queue_capacity
    then (
      record d { queue = d.queue ++ e ∷ []; records = insert e.id DeliveryState.pending d.records },
      true,
    )
    else (d, false)

unfoldable pub enqueue : Time → Event → Dispatcher → Dispatcher × Bool
unfolding prune publish
enqueue now e d =
    let pruned = prune now d in
    if d.stopped
    then (d, false)
    else if is_some (lookup e.id pruned.records)
    then (pruned, false)
    else publish e pruned

-- The oldest handled ids make room for one more.
unfoldable pub evict :
    List (String × Time)
    → List (String × DeliveryState)
    → List (String × DeliveryState) × List (String × Time)
evict [] records = (records, [])
evict ((id, at) ∷ rest) records =
    let evicted = evict rest (delete_key id records) in
    if leb completed_capacity (length ((id, at) ∷ rest))
    then evicted
    else (records, (id, at) ∷ rest)

unfoldable pub finish : String → DeliveryState → Time → Dispatcher → Dispatcher
unfolding evict
finish id state now d =
    let (records, completed) = evict d.completed d.records in
    record d { records = insert id state records; completed = completed ++ (id, now) ∷ [] }

-- What a worker does with an event before it sends it.
unfoldable pub mark_sending : Event → Dispatcher → Dispatcher
mark_sending e d = record d { records = insert e.id DeliveryState.sending d.records }
