-- ===== src/Notification/Delivery/Ended.antt =====
-- How a delivery of internal/notification/dispatcher.go ends.
use kube_task.Base.{
  ℕ, ◌≤◌, true, false, List, [], ◌∷◌, ◌++◌, All, length, nat_eq, cases-if, ◌≡◌, refl, arith,
}
use kube_task.Notification.Queue.{DeliveryState, is_final}
use kube_task.Notification.Transport.{AttemptResult}
use kube_task.Notification.Delivery.{verdict, is_last}

-- An answer after which the dispatcher tries again.
abbrev pub IsTransient : AttemptResult → Type 0
IsTransient r = (r.delivered ≡ false) × (r.retry ≡ true)

-- The state that an answer calls for, when nothing more is sent: what was delivered is delivered,
-- what failed for good is rejected, and what might still have gone through is exhausted.
pub data Judged : DeliveryState → AttemptResult → Type 0 where
  as_delivered : (r : AttemptResult) → r.delivered ≡ true → Judged DeliveryState.delivered r
  as_rejected :
      (r : AttemptResult) → r.delivered ≡ false → r.retry ≡ false → Judged DeliveryState.rejected r
  as_exhausted :
      (r : AttemptResult) → r.delivered ≡ false → r.retry ≡ true → Judged DeliveryState.exhausted r

pub verdict-Judged : (r : AttemptResult) → Judged (verdict r) r
verdict-Judged r =
    cases-if (λ state. Judged state r) r.delivered (λ is. Judged.as_delivered r is)
      (λ isnt.
        cases-if (λ state. Judged state r) r.retry (λ more. Judged.as_exhausted r isnt more)
          (λ no_more. Judged.as_rejected r isnt no_more))

pub Judged-is_final :
    (state : DeliveryState) (r : AttemptResult) → Judged state r → is_final state ≡ true
Judged-is_final state r (Judged.as_delivered _ h) = refl
Judged-is_final state r (Judged.as_rejected _ h k) = refl
Judged-is_final state r (Judged.as_exhausted _ h k) = refl

-- How a delivery that leaves `state` went: `results` are the answers, in order, of which all but the
-- last are transient; the state is the one that the last calls for, and only after all the retries is it
-- given up.
pub record Ended (retries : ℕ) (state : DeliveryState) (results : List AttemptResult) : Type 0 where
  pub earlier : List AttemptResult
  pub last : AttemptResult
  pub whole : results ≡ earlier ++ last ∷ []
  pub transient : All IsTransient earlier
  pub few : length earlier ≤ retries
  pub is_judged : Judged state last
  pub full : state ≡ DeliveryState.exhausted → length earlier ≡ retries

-- A last answer that asks for a retry comes at the last attempt.
pub given_up :
    (max attempt : ℕ) (r : AttemptResult)
    → verdict r ≡ DeliveryState.exhausted
    → is_last max attempt r ≡ true
    → attempt ≡ max
given_up max attempt r v is = ground arith

pub not_last :
    (max attempt : ℕ) (r : AttemptResult)
    → is_last max attempt r ≡ false
    → IsTransient r × (nat_eq attempt max ≡ false)
not_last max attempt r is = ground arith
