-- ===== src/Notification/Workers.antt =====
-- `run` of internal/notification/dispatcher.go: two workers take events from the queue while Jobs are
-- observed, until the context is cancelled. Each constructor of `Step` is a stretch of the code
-- between two points where another goroutine may come in.
pub mod Trim
pub mod Inv
use kube_task.Base.{String, Bool, true, false, List, [], ◌∷◌, ◌≡◌}
use kube_task.Api.{Time}
use kube_task.Notification.Event.{Event}
use kube_task.Notification.Queue.{
  DeliveryState, is_final, Dispatcher, new_dispatcher, enqueue, finish, mark_sending,
}

-- Where a worker's loop stands: at its `select`, with an event in hand, sending it, or at its end.
pub data Worker : Type 0 where
  idle exited : Worker
  received sending : Event → Worker

pub record System : Type 0 where
  pub dispatcher : Dispatcher
  pub first : Worker
  pub second : Worker
  pub cancelled : Bool

unfoldable pub start_system : System
unfolding new_dispatcher
start_system = record {
  dispatcher = new_dispatcher;
  first = Worker.idle;
  second = Worker.idle;
  cancelled = false;
}

-- One step of a worker, with the dispatcher that it shares. A worker with an event in hand ends if
-- it sees the context cancelled; a delivery that the context ends has no outcome to record.
pub data Work (cancelled : Bool) (d : Dispatcher) : Worker → Dispatcher → Worker → Type 0 where
  receive :
      (e : Event) (rest : List Event)
      → d.queue ≡ e ∷ rest
      → Work cancelled d Worker.idle (record d { queue = rest }) (Worker.received e)
  begin : (e : Event) → Work cancelled d (Worker.received e) (mark_sending e d) (Worker.sending e)
  complete :
      (e : Event) (state : DeliveryState) (now : Time)
      → is_final state ≡ true
      → Work cancelled d (Worker.sending e) (finish e.id state now d) Worker.idle
  abandon : (e : Event) → cancelled ≡ true → Work cancelled d (Worker.sending e) d Worker.idle
  leave : cancelled ≡ true → Work cancelled d Worker.idle d Worker.exited
  drop_event : (e : Event) → cancelled ≡ true → Work cancelled d (Worker.received e) d Worker.exited

pub data Step (s : System) : System → Type 0 where
  observe :
      (e : Event) (now : Time) → Step s (record s { dispatcher = (enqueue now e s.dispatcher).0 })
  work_first :
      (d : Dispatcher) (w : Worker)
      → Work s.cancelled s.dispatcher s.first d w
      → Step s (record s { dispatcher = d; first = w })
  work_second :
      (d : Dispatcher) (w : Worker)
      → Work s.cancelled s.dispatcher s.second d w
      → Step s (record s { dispatcher = d; second = w })
  cancel : Step s (record s { cancelled = true })
  stop :
      s.cancelled ≡ true
      → Step s (record s { dispatcher = record (s.dispatcher) { stopped = true } })

pub data Reach : System → Type 0 where
  here : Reach start_system
  next : {s t : System} → Reach s → Step s t → Reach t
