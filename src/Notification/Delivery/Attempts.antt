-- ===== src/Notification/Delivery/Attempts.antt =====
-- The attempts of internal/notification/dispatcher.go.
use kube_task.Base.{
  ℕ, suc, ◌≤◌, String, true, Option, none, some, List, [], ◌∷◌, ◌++◌, length, ◌≡◌, ◌⊎◌,
}
use kube_task.Notification.Event.{Event}
use kube_task.Notification.Queue.{DeliveryState, is_final}
use kube_task.Notification.Transport.{AttemptResult}
use kube_task.Notification.Delivery.{Sender}
use kube_task.Notification.Delivery.Ended.{Ended}

module _ {S : Type 0} (sender : Sender S) (log : S → List AttemptResult) where
  -- `log` is what was sent: a `send` adds its answer, and nothing else does.
  pub record Logged : Type 0 where
    pub send :
        (id body : String) (s : S)
        → log (sender.send id body s).1 ≡ log s ++ (sender.send id body s).0 ∷ []
    pub cancelled : (s : S) → log (sender.cancelled s).1 ≡ log s
    pub wait : (delay : _) (s : S) → log (sender.wait delay s).1 ≡ log s

  -- What a part of a delivery adds to the log.
  abbrev pub Report : (retries : ℕ) → List AttemptResult → Option DeliveryState × S → Type 0
  Report retries base (outcome, s) =
      (results : List AttemptResult) × (log s ≡ base ++ results)
      × (length results ≤ suc retries)
      × ((state : DeliveryState) → outcome ≡ some state → Ended retries state results)

module _ {S : Type 0} (sender : Sender S) (log : S → List AttemptResult) where
  -- An event that does not encode is rejected unsent; another one is sent as `Ended` says.
  abbrev pub Delivered : ℕ → Event → List AttemptResult → Option DeliveryState → Type 0
  Delivered max e results outcome =
      (state : DeliveryState)
      → outcome ≡ some state
      → (is_final state ≡ true)
        × (((sender.encode e ≡ none) × (state ≡ DeliveryState.rejected) × (results ≡ []))
            ⊎ Ended max state results)
