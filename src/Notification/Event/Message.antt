-- ===== src/Notification/Event/Message.antt =====
-- How an event's message is cut.
use Prim.Native.String.{slice}
use text.Mathlib.Text.{is_char_boundary}
use text.Mathlib.TextBridge.{IsPrefix}
use text.Mathlib.TextEquality.{slice-prefix}
use text.Mathlib.TextPositions.{boundary-zero}
use kube_task.Base.{
  ℕ, zero, suc, ◌≤◌, ◌<◌, String, true, len, ◌≡◌, refl, arith, ltb_of_le, ltb_of_lt, Bool-cases,
  inl, inr,
}
use kube_task.Notification.Event.{ExecutionInfo, message_limit, cut_end, truncate}

boundary-cut_end : (s : String) (i : ℕ) → is_char_boundary s (cut_end s i) ≡ true
unfolding cut_end
boundary-cut_end s zero = boundary-zero s
boundary-cut_end s (suc i) = elim (Bool-cases (is_char_boundary s (suc i))) [
  | inl h ↦ rw h h
  | inr h ↦ rw h (boundary-cut_end s i)
]

cut_end-le : (s : String) (i : ℕ) → cut_end s i ≤ i
unfolding cut_end
cut_end-le s zero = omega arith
cut_end-le s (suc i) = ground (arith, cut_end-le s i)

cut_end-last : (s : String) (i k : ℕ) → k ≤ i → is_char_boundary s k ≡ true → k ≤ cut_end s i
unfolding cut_end
cut_end-last s zero k le b = omega arith
cut_end-last s (suc i) k le b = ground (arith, cut_end-last s i k)

len_of_boundary : (s : String) (i : ℕ) → is_char_boundary s i ≡ true → len (slice s 0 i) ≡ i
len_of_boundary s i h = ground arith

-- A cut of a text that fits into a number of bytes, and that no longer one between two characters
-- does.
pub record IsCut (limit : ℕ) (whole cut : String) : Type 0 where
  pub start : IsPrefix cut whole
  pub fits : len cut ≤ limit
  pub longest : (k : ℕ) → k ≤ limit → is_char_boundary whole k ≡ true → k ≤ len cut

-- An event keeps a message of at most 4096 bytes as it is. Of a longer one it keeps the longest
-- start of at most 4096 bytes that ends between two characters, and marks it as truncated.
pub truncate-IsCut :
    (e : ExecutionInfo)
    → (len e.message ≤ message_limit → truncate e ≡ e)
      × (message_limit < len e.message
          → IsCut message_limit e.message (truncate e).message
            × ((truncate e).message_truncated ≡ true))
unfolding truncate
truncate-IsCut e =
    let end = cut_end e.message message_limit in
    let length = len_of_boundary e.message end (boundary-cut_end e.message message_limit) in
    (
      λ h. rw (ltb_of_le message_limit (len e.message) h) refl,
      λ h. rw (ltb_of_lt message_limit (len e.message) h) (
        record {
          start = slice-prefix e.message end;
          fits = rw length (cut_end-le e.message message_limit);
          longest = λ k le b. rw length (cut_end-last e.message message_limit k le b);
        },
        refl,
      ),
    )
