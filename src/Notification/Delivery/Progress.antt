-- ===== src/Notification/Delivery/Progress.antt =====
-- The end of a delivery of internal/notification/dispatcher.go that nothing cancels.
use kube_task.Base.{ℕ, zero, suc, ◌+◌, String, true, false, Option, none, some, cases-if, ◌≡◌, refl}
use kube_task.Notification.Event.{Event}
use kube_task.Notification.Queue.{DeliveryState}
use kube_task.Notification.Transport.{AttemptResult, retry_delay}
use kube_task.Notification.Delivery.{
  Sender, verdict, is_last, settle, try_send, deliver_loop, deliver,
}

module _ {S : Type 0} (sender : Sender S) where
  -- The context is not cancelled, and each wait lasts its time.
  pub record Undisturbed : Type 0 where
    pub lives : (s : S) → (sender.cancelled s).0 ≡ false
    pub waits : (delay : _) (s : S) → (sender.wait delay s).0 ≡ true

  abbrev Ends : Option DeliveryState × S → Type 0
  Ends out = (state : DeliveryState) × (out.0 ≡ some state)

  module _ (max : ℕ) (calm : Undisturbed) where
    settle-Ends :
        (attempt : ℕ) (r : AttemptResult) (next : S → Option DeliveryState × S) (s : S)
        → ((t : S) → Ends (next t))
        → Ends (settle sender max attempt r next s)
    unfolding settle
    settle-Ends attempt r next s more =
        cases-if Ends (is_last max attempt r) (λ is. (verdict r, refl))
          (λ is. rw (calm.waits (retry_delay attempt) s) (more _))

    try_send-Ends :
        (id body : String) (attempt : ℕ) (next : S → Option DeliveryState × S) (s : S)
        → ((t : S) → Ends (next t))
        → Ends (try_send sender max id body attempt next s)
    unfolding try_send
    try_send-Ends id body attempt next s more =
        let s1 = (sender.cancelled s).1 in
        let sent = sender.send id body s1 in
        cases-if Ends (sender.cancelled s).0 (λ is. absurd (let e = calm.lives s in cc))
          (λ is.
            cases-if Ends (sender.cancelled sent.1).0
              (λ on. absurd (let e = calm.lives sent.1 in cc))
              (λ on. settle-Ends attempt sent.0 next _ more))

    deliver_loop-Ends :
        (left : ℕ) (id body : String) (attempt : ℕ) (s : S)
        → Ends (deliver_loop sender max left id body attempt s)
    unfolding deliver_loop
    deliver_loop-Ends zero id body attempt s = (DeliveryState.exhausted, refl)
    deliver_loop-Ends (suc left) id body attempt s =
        try_send-Ends id body attempt (deliver_loop sender max left id body (attempt + 1)) s
          (deliver_loop-Ends left id body (attempt + 1))

    -- An event whether it encodes or not.
    start-Ends :
        (encoded : Option String) (e : Event) (s : S)
        → Ends (elim encoded as (λ _. Option DeliveryState × S) [
          | none ↦ (some DeliveryState.rejected, s)
          | some body ↦ deliver_loop sender max (max + 1) e.id body 0 s
        ])
    start-Ends none e s = (DeliveryState.rejected, refl)
    start-Ends (some body) e s = deliver_loop-Ends (max + 1) e.id body 0 s

  -- Where the context is not cancelled and the waits last their time, a delivery ends in a state.
  pub deliver-Ends :
      (max : ℕ) (enrich : Event → S → Event × S) (e : Event) (s : S)
      → Undisturbed
      → (state : DeliveryState) × ((deliver sender max enrich e s).0 ≡ some state)
  unfolding deliver
  deliver-Ends max enrich e s calm =
      start-Ends max calm (sender.encode (enrich e s).0) (enrich e s).0 (enrich e s).1
