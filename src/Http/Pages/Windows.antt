-- ===== src/Http/Pages/Windows.antt =====
-- The windows that internal/api/handler/task_handler.go cuts.
use native.Mathlib.Nat.{mul-le-mul_right}
use kube_task.Base.{
  ℕ, zero, suc, ◌+◌, ◌*◌, ◌-◌, ◌≤◌, ◌<◌, none, some, List, [], ◌∷◌, ◌++◌, length, take, drop,
  leb_of_le, ℤ, pos, negsuc, ◌+ℤ◌, ◌-ℤ◌, ◌*ℤ◌, wrap_64, wrap_64-pos, wrap_64-negsuc, ◌≡◌, refl, sym,
  ap, ◌∙◌, ◌⊎◌, inl, inr, arith,
}
use kube_task.Http.Request.{Page}
use kube_task.Http.Pages.{at_most, slice_list, page_at, page_of}

module _ {A : Type 0} where
  take_all : (n : ℕ) (xs : List A) → length xs ≤ n → take n xs ≡ xs
  take_all zero [] h = refl
  take_all (suc n) [] h = refl
  take_all zero (x ∷ xs) h = absurd (omega arith)
  take_all (suc n) (x ∷ xs) h = ap (λ ys. x ∷ ys) (take_all n xs (omega arith))

  drop_all : (n : ℕ) (xs : List A) → length xs ≤ n → drop n xs ≡ []
  drop_all zero [] h = refl
  drop_all (suc n) [] h = refl
  drop_all zero (x ∷ xs) h = absurd (omega arith)
  drop_all (suc n) (x ∷ xs) h = drop_all n xs (omega arith)

  length-drop : (n : ℕ) (xs : List A) → length (drop n xs) ≡ length xs - n
  length-drop zero xs = omega arith
  length-drop (suc n) [] = omega arith
  length-drop (suc n) (x ∷ xs) = length-drop n xs ∙ omega arith

  take_nil : (n : ℕ) → take {A = A} n [] ≡ []
  take_nil zero = refl
  take_nil (suc n) = refl

  -- Both ends inside the list.
  slice_list-inside :
      (xs : List A) (a b : ℕ)
      → a ≤ b
      → b ≤ length xs
      → slice_list xs (pos a) (pos b) ≡ some (take (b - a) (drop a xs))
  unfolding slice_list
  slice_list-inside xs a b h k = rw (leb_of_le a b h, leb_of_le b (length xs) k)

at_most-low : (t a : ℕ) → a ≤ t → at_most (pos t) (pos a) ≡ pos a
at_most-low t a h = ground arith

at_most-high : (t a : ℕ) → t < a → at_most (pos t) (pos a) ≡ pos t
at_most-high t a h = ground arith

pred_pos : (p : ℕ) → pos (suc p) -ℤ pos 1 ≡ pos p
pred_pos p = ground arith

mul_pos : (p k : ℕ) → pos p *ℤ pos k ≡ pos (p * k)
mul_pos p k = ground arith

add_pos : (a k : ℕ) → pos a +ℤ pos k ≡ pos (a + k)
add_pos a k = ground arith

no_rows : (n : ℕ) → (pos 1 -ℤ pos 1) *ℤ negsuc n ≡ pos 0
no_rows n = ground arith

add_negsuc : (n : ℕ) → pos 0 +ℤ negsuc n ≡ negsuc n
add_negsuc n = ground arith

at_most-negsuc : (t n : ℕ) → at_most (pos t) (negsuc n) ≡ negsuc n
at_most-negsuc t n = ground arith

times : (n k : ℕ) → n * k + k ≡ suc n * k
times n k = ground arith

le_or_lt : (a b : ℕ) → (a ≤ b) ⊎ (b < a)
le_or_lt a b = ground arith

module _ {A : Type 0} where
  -- The window of `k` entries from the one at `a`, however they lie to the end of the list.
  slice_list-at_most :
      (xs : List A) (a k : ℕ)
      → slice_list xs (at_most (pos (length xs)) (pos a)) (at_most (pos (length xs)) (pos (a + k)))
        ≡ some (take k (drop a xs))
  slice_list-at_most xs a k = elim (le_or_lt (a + k) (length xs)) [
    | inl inside ↦
        rw (at_most-low (length xs) a (omega arith), at_most-low (length xs) (a + k) inside)
          (slice_list-inside xs a (a + k) (omega arith) inside
            ∙ ap (λ n. some (take n (drop a xs))) (omega arith))
    | inr over ↦ elim (le_or_lt a (length xs)) [
      | inl from ↦
          rw (at_most-low (length xs) a from, at_most-high (length xs) (a + k) over)
            (slice_list-inside xs a (length xs) from (omega arith)
              ∙ ap some (
                  take_all (length xs - a) (drop a xs) (omega (arith, length-drop a xs))
                  ∙ sym (take_all k (drop a xs) (omega (arith, length-drop a xs)))))
      | inr beyond ↦
          rw (at_most-high (length xs) a beyond, at_most-high (length xs) (a + k) over)
            (slice_list-inside xs (length xs) (length xs) (omega arith) (omega arith)
              ∙ ap some
                  (rest (drop_all a xs (omega arith)) (drop_all (length xs) xs (omega arith))))
    ]
  ]
    where
      rest :
          drop a xs ≡ []
          → drop (length xs) xs ≡ []
          → take (length xs - length xs) (drop (length xs) xs) ≡ take k (drop a xs)
      rest h g = rw (h, g) (take_nil (length xs - length xs) ∙ sym (take_nil k))

  page_at-negative :
      (page page_size : ℤ) (n : ℕ) (xs : List A)
      → page_at page page_size (pos 0) (negsuc n) xs ≡ none
  unfolding page_at slice_list
  page_at-negative page page_size n xs =
      rw
        (at_most-low (length xs) 0 (omega arith), at_most-negsuc (length xs) n, page_at, slice_list)
        refl

  -- The page with the number `p + 1`, of `k` entries.
  abbrev pub window : ℕ → ℕ → List A → Page A
  window p k xs = record {
    items = take k (drop (p * k) xs);
    total = length xs;
    page = pos (suc p);
    page_size = pos k;
  }

  page_at-window :
      (p k : ℕ) (xs : List A)
      → page_at (pos (suc p)) (pos k) (pos (p * k)) (pos (p * k + k)) xs ≡ some (window p k xs)
  unfolding page_at
  page_at-window p k xs = rw (slice_list-at_most xs (p * k) k, page_at) refl

  page_of-window :
      (p k : ℕ) (xs : List A)
      → p * k + k < 9223372036854775808
      → page_of (pos (suc p)) (pos k) xs ≡ some (window p k xs)
  unfolding page_of
  page_of-window p k xs h =
      let start : wrap_64 ((pos (suc p) -ℤ pos 1) *ℤ pos k) ≡ pos (p * k) =
        ap (λ n. wrap_64 (n *ℤ pos k)) (pred_pos p)
        ∙ ap wrap_64 (mul_pos p k)
        ∙ wrap_64-pos (p * k) (omega arith) in
      let end : wrap_64 (pos (p * k) +ℤ pos k) ≡ pos (p * k + k) =
        ap wrap_64 (add_pos (p * k) k) ∙ wrap_64-pos (p * k + k) h in
      ap (λ a. page_at (pos (suc p)) (pos k) a (wrap_64 (a +ℤ pos k)) xs) start
      ∙ ap (λ b. page_at (pos (suc p)) (pos k) (pos (p * k)) b xs) end
      ∙ page_at-window p k xs

  -- The items of the first `n` pages, one after the other.
  abbrev pub first_pages : ℕ → ℕ → List A → List A
  first_pages zero k xs = []
  first_pages (suc n) k xs = first_pages n k xs ++ (window n k xs).items

  take-add : (a b : ℕ) (xs : List A) → take (a + b) xs ≡ take a xs ++ take b (drop a xs)
  take-add zero b xs = ap (λ n. take n xs) (omega arith)
  take-add (suc a) b [] = take_nil (suc a + b) ∙ sym (take_nil b)
  take-add (suc a) b (x ∷ xs) =
      ap (λ n. take n (x ∷ xs)) (plus a b) ∙ ap (λ ys. x ∷ ys) (take-add a b xs)
    where
      plus : (a b : ℕ) → suc a + b ≡ suc (a + b)
      plus a b = omega arith

  first_pages-take : (n k : ℕ) (xs : List A) → first_pages n k xs ≡ take (n * k) xs
  first_pages-take zero k xs = ap (λ m. take m xs) (zero_times k)
    where
      zero_times : (k : ℕ) → 0 ≡ 0 * k
      zero_times k = omega arith
  first_pages-take (suc n) k xs =
      ap (λ ys. ys ++ (window n k xs).items) (first_pages-take n k xs)
      ∙ sym (take-add (n * k) k xs)
      ∙ ap (λ m. take m xs) (times n k)

  -- All the pages together are the list.
  first_pages_all : (n k : ℕ) (xs : List A) → length xs ≤ n * k → first_pages n k xs ≡ xs
  first_pages_all n k xs h = first_pages-take n k xs ∙ take_all (n * k) xs h

  -- Where `n` pages of `k` entries hold the list and fit into an `int`, each of the pages 1 to `n` is
  -- answered with its window of the list, and the windows one after the other are the list.
  pub page_of-first_pages :
      (n k : ℕ) (xs : List A)
      → n * k < 9223372036854775808
      → length xs ≤ n * k
      → ((p : ℕ) → p < n → page_of (pos (suc p)) (pos k) xs ≡ some (window p k xs))
        × (first_pages n k xs ≡ xs)
  page_of-first_pages n k xs small enough =
      (λ p h. page_of-window p k xs (row p h), first_pages_all n k xs enough)
    where
      row : (p : ℕ) → p < n → p * k + k < 9223372036854775808
      row p h =
          let more = mul-le-mul_right {m = suc p} {n = n} k h in let t = times p k in omega arith

  -- With a page size below zero the first page is out of bounds: the slice expression panics.
  pub page_of-negative :
      (size : ℕ) (xs : List A)
      → size < 9223372036854775808
      → page_of (pos 1) (negsuc size) xs ≡ none
  unfolding page_of
  page_of-negative size xs h =
      ap (λ a. page_at (pos 1) (negsuc size) a (wrap_64 (a +ℤ negsuc size)) xs)
        (ap wrap_64 (no_rows size) ∙ wrap_64-pos 0 (omega arith))
      ∙ ap (λ b. page_at (pos 1) (negsuc size) (pos 0) b xs)
          (ap wrap_64 (add_negsuc size) ∙ wrap_64-negsuc size h)
      ∙ page_at-negative (pos 1) (negsuc size) size xs
