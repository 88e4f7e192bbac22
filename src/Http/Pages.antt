-- ===== src/Http/Pages.antt =====
-- The pages of a list: internal/api/handler/task_handler.go and workflow_handler.go, in the 64 bits
-- of Go's `int`.
pub mod Windows
use Prim.Native.Char.{Char, code}
use kube_task.Base.{
  ℕ, zero, suc, chars, ◌+◌, ◌*◌, ◌-◌, String, Bool, true, ◌≡◌, refl, false, ◌&&◌, ◌||◌, Option,
  none, some, List, [], ◌∷◌, length, take, drop, get_or, if◌then◌else◌, ltb, leb, nat_eq, ℤ, pos,
  negsuc, ltb_ℤ, ◌+ℤ◌, ◌-ℤ◌, ◌*ℤ◌, wrap_64,
}
use kube_task.Http.Request.{Page}

-- The digits of a number, or nothing if there is a character that is none.
unfoldable pub read_digits : ℕ → List Char → Option ℕ
read_digits n [] = some n
read_digits n (c ∷ cs) =
    let rest = read_digits (10 * n + (code c - 48)) cs in
    if leb 48 (code c) && leb (code c) 57 then rest else none

unfoldable pub read_number : List Char → Option ℕ
unfolding read_digits
read_number [] = none
read_number (c ∷ cs) = read_digits 0 (c ∷ cs)

-- The value that `strconv.Atoi` returns beside its error: 0 for a text that is no number, and the
-- nearest `int` for one that is too large.
abbrev pub clamp_pos : Option ℕ → ℤ
clamp_pos none = pos 0
clamp_pos (some n) = if ltb n 9223372036854775808 then pos n else pos 9223372036854775807

abbrev pub clamp_neg : Option ℕ → ℤ
clamp_neg none = pos 0
clamp_neg (some zero) = pos 0
clamp_neg (some (suc n)) =
    if ltb n 9223372036854775808 then negsuc n else negsuc 9223372036854775807

unfoldable pub atoi_chars : List Char → ℤ
unfolding read_number
atoi_chars [] = pos 0
atoi_chars (c ∷ cs) =
    if nat_eq (code c) 45
    then clamp_neg (read_number cs)
    else if nat_eq (code c) 43
    then clamp_pos (read_number cs)
    else clamp_pos (read_number (c ∷ cs))

unfoldable pub atoi : String → ℤ
unfolding atoi_chars chars
atoi s = atoi_chars (chars s)

-- `page` and `pageSize` of a query, with the defaults.
unfoldable pub query_page : Option String → ℤ
unfolding atoi
query_page page = let n = atoi (get_or "1" page) in if ltb_ℤ n (pos 1) then pos 1 else n

unfoldable pub query_task_page_size : Option String → ℤ
unfolding atoi
query_task_page_size size = atoi (get_or "20" size)

unfoldable pub query_workflow_page_size : Option String → ℤ
unfolding atoi
query_workflow_page_size size =
    let n = atoi (get_or "20" size) in if ltb_ℤ n (pos 1) then pos 20 else n

abbrev pub at_most : ℤ → ℤ → ℤ
at_most total n = if ltb_ℤ total n then total else n

module _ {A : Type 0} where
  -- `xs[start:end]`, which panics unless 0 ≤ start ≤ end ≤ len(xs).
  unfoldable pub slice_list : List A → ℤ → ℤ → Option (List A)
  slice_list xs (pos start) (pos end) =
      if leb start end && leb end (length xs)
      then some (take (end - start) (drop start xs))
      else none
  slice_list xs _ _ = none

  -- The items from `start` to `end`, neither of them behind the last; nothing is a panic.
  unfoldable pub page_at : (page page_size start end : ℤ) → List A → Option (Page A)
  unfolding slice_list
  page_at page page_size start end xs =
      elim (slice_list xs (at_most (pos (length xs)) start) (at_most (pos (length xs)) end)) [
        | none ↦ none
        | some items ↦
            some (record { items = items; total = length xs; page = page; page_size = page_size })
      ]

  -- From `total` on: the page of the objects that passed the filters.
  unfoldable pub page_of : (page page_size : ℤ) → List A → Option (Page A)
  unfolding page_at wrap_64
  page_of page page_size xs =
      let start = wrap_64 ((page -ℤ pos 1) *ℤ page_size) in
      page_at page page_size start (wrap_64 (start +ℤ page_size)) xs

atoi_runs :
    (atoi "20" ≡ pos 20) × (atoi "-3" ≡ negsuc 2) × (atoi "x1" ≡ pos 0) × (atoi "+7" ≡ pos 7)
unfolding atoi atoi_chars read_number read_digits chars
atoi_runs = (refl, refl, refl, refl)
