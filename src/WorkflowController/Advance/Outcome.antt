-- ===== src/WorkflowController/Advance/Outcome.antt =====
-- What holds of a call's value, where it returns one.
use kube_task.Base.{◌≡◌, refl, subst}
use kube_task.Kube.{Call, Reply, done, failed, and_then}

abbrev pub OnDone : {A : Type 0} → (A → Type 0) → Reply A → Type 0
OnDone P (done a) = P a
OnDone P (failed e) = Unit

pub OnDone-and_then :
    {S A B : Type 0} (P : B → Type 0) (r : Reply A) (f : A → Call S B) (s : S)
    → ((a : A) → r ≡ done a → OnDone P (f a s).0)
    → OnDone P (and_then r f s).0
OnDone-and_then P (done a) f s h = h a refl
OnDone-and_then P (failed e) f s h = tt

pub OnDone-elim :
    {A : Type 0} (P : A → Type 0) (r : Reply A) (a : A) → r ≡ done a → OnDone P r → P a
OnDone-elim P (done b) a e h = subst (OnDone P) e h
OnDone-elim P (failed x) a e h = absurd (cc)
