-- ===== src/Notification/Delivery.antt =====
-- `deliver` of internal/notification/dispatcher.go. What sends, what cancels and what waits is a
-- parameter over a state, and so is the reader that completes the event.
pub mod Ended
pub mod Attempts
pub mod Progress
use kube_task.Base.{
  ℕ, zero, suc, ◌+◌, String, Bool, true, false, Option, none, some, ◌||◌, not, if◌then◌else◌,
  nat_eq,
}
use kube_task.Api.{Duration}
use kube_task.Notification.Event.{Event}
use kube_task.Notification.Queue.{DeliveryState}
use kube_task.Notification.Transport.{AttemptResult, retry_delay}

-- The interface `sender`, with the context and the timer that `deliver` reads.
pub record Sender (S : Type 0) : Type 0 where
  pub encode : Event → Option String
  pub send : (id : String) (body : String) → S → AttemptResult × S
  -- `ctx.Err() != nil`
  pub cancelled : S → Bool × S
  -- `d.wait`, which says whether the time has passed.
  pub wait : Duration → S → Bool × S

-- The state that the last attempt leaves.
abbrev pub verdict : AttemptResult → DeliveryState
verdict r =
    if r.delivered
    then DeliveryState.delivered
    else if r.retry
    then DeliveryState.exhausted
    else DeliveryState.rejected

-- An attempt is the last one if it delivers, if it must not be repeated, or if it is attempt
-- `max_retries`.
abbrev pub is_last : (max_retries attempt : ℕ) → AttemptResult → Bool
is_last max_retries attempt r = r.delivered || (not r.retry || nat_eq attempt max_retries)

module _ {S : Type 0} (sender : Sender S) (max_retries : ℕ) where
  -- After an attempt: the verdict, or the wait and what comes then; `""` is `none`.
  unfoldable pub settle :
      ℕ → AttemptResult → (S → Option DeliveryState × S) → S → Option DeliveryState × S
  settle attempt r next s =
      if is_last max_retries attempt r
      then (some (verdict r), s)
      else let (waited, s') = sender.wait (retry_delay attempt) s in
        if waited then next s' else (none, s')

  -- One turn of the loop.
  unfoldable pub try_send :
      String → String → ℕ → (S → Option DeliveryState × S) → S → Option DeliveryState × S
  unfolding settle
  try_send id body attempt next s =
      let (before, s1) = sender.cancelled s in
      if before
      then (none, s1)
      else let (r, s2) = sender.send id body s1 in
        let (after, s3) = sender.cancelled s2 in
        if after then (none, s3) else settle attempt r next s3

  -- The loop, with the number of the turns that `attempt <= max_retries` leaves.
  unfoldable pub deliver_loop :
      (left : ℕ) → String → String → (attempt : ℕ) → S → Option DeliveryState × S
  unfolding try_send
  deliver_loop zero id body attempt s = (some DeliveryState.exhausted, s)
  deliver_loop (suc left) id body attempt s =
      try_send id body attempt (deliver_loop left id body (attempt + 1)) s

  unfoldable pub deliver : (enrich : Event → S → Event × S) → Event → S → Option DeliveryState × S
  unfolding deliver_loop
  deliver enrich e s =
      let (e', s') = enrich e s in
      elim (sender.encode e') [
        | none ↦ (some DeliveryState.rejected, s')
        | some body ↦ deliver_loop (max_retries + 1) e'.id body 0 s'
      ]
