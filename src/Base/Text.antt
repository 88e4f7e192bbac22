-- ===== src/Base/Text.antt =====
-- Texts: the standard library's sorting, joining and decimal printing of what the code sorts,
-- joins and prints.
use Prim.Native.Nat.{ℕ, zero, suc, ◌+◌, ◌*◌, ◌/◌, ◌%◌, ◌<◌, ◌≤◌, Ordering}
use Prim.Native.String.{String, ◌++◌, compare, len}
use text.Mathlib.TextPositions.{len-append}
use mathlib.Core.Path.{◌≡◌, refl}
use mathlib.Core.Bool.{Bool, true, false}
use mathlib.Core.List.{List, [], ◌∷◌}
use native.Mathlib.Omega.{arith}
use kube_task.Base.Tests.{ltb, if◌then◌else◌, nat_eq}
use kube_task.Base.Lists.{elem, Nodup}

abbrev leb_text : String → String → Bool
leb_text s t = elim (compare s t) [ Ordering.gt ↦ false | _ ↦ true ]

-- `sort.Strings`: equal strings are the same value, so every sorting gives this list.
unfoldable pub insert_sorted : String → List String → List String
insert_sorted x [] = x ∷ []
insert_sorted x (y ∷ ys) = if leb_text x y then x ∷ y ∷ ys else y ∷ insert_sorted x ys

unfoldable pub sort_strings : List String → List String
unfolding insert_sorted
sort_strings [] = []
sort_strings (x ∷ xs) = insert_sorted x (sort_strings xs)

-- `strings.Join`
unfoldable pub join_strings : String → List String → String
join_strings sep [] = ""
join_strings sep (x ∷ []) = x
join_strings sep (x ∷ y ∷ ys) = x ++ (sep ++ join_strings sep (y ∷ ys))

-- The pieces of a formatted message, one after the other.
unfoldable pub concat : List String → String
concat [] = ""
concat (x ∷ xs) = x ++ concat xs

digit : ℕ → String
digit n =
    if nat_eq n 0
    then "0"
    else if nat_eq n 1
    then "1"
    else if nat_eq n 2
    then "2"
    else if nat_eq n 3
    then "3"
    else if nat_eq n 4
    then "4"
    else if nat_eq n 5
    then "5"
    else if nat_eq n 6
    then "6"
    else if nat_eq n 7
    then "7"
    else if nat_eq n 8
    then "8"
    else "9"

decimal_from : ℕ → ℕ → String
unfolding digit
decimal_from zero n = ""
decimal_from (suc fuel) n =
    let rest = decimal_from fuel (n / 10) in if ltb n 10 then digit n else rest ++ digit (n % 10)

-- `%d` of a number that is not negative.
unfoldable pub decimal : ℕ → String
unfolding decimal_from
decimal n = decimal_from (n + 1) n

len-if : (b : Bool) (s t : String) → len s ≡ 1 → len t ≡ 1 → len (if b then s else t) ≡ 1
len-if true s t p q = p
len-if false s t p q = q

len-digit : (n : ℕ) → len (digit n) ≡ 1
unfolding digit
len-digit n = len-if (nat_eq n 0) "0" _ refl (
    len-if (nat_eq n 1) "1" _ refl (
      len-if (nat_eq n 2) "2" _ refl (
        len-if (nat_eq n 3) "3" _ refl (
          len-if (nat_eq n 4) "4" _ refl (
            len-if (nat_eq n 5) "5" _ refl (
              len-if (nat_eq n 6) "6" _ refl
                (len-if (nat_eq n 7) "7" _ refl (len-if (nat_eq n 8) "8" _ refl refl))))))))

-- The length of a formatted message, piece by piece.
pub len-concat : (x : String) (xs : List String) → len (concat (x ∷ xs)) ≡ len x + len (concat xs)
unfolding concat
len-concat x xs = len-append x (concat xs)

pub len-concat_empty : len (concat []) ≡ 0
unfolding concat
len-concat_empty = refl

-- Ten to the power of `k`.
abbrev pub power_of_ten : ℕ → ℕ
power_of_ten zero = 1
power_of_ten (suc k) = 10 * power_of_ten k

len-decimal_from : (k fuel n : ℕ) → n < 10 * power_of_ten k → len (decimal_from fuel n) ≤ suc k
unfolding decimal_from
len-decimal_from k zero n h = omega arith
len-decimal_from zero (suc fuel) n h = ground (arith, len-digit n)
len-decimal_from (suc k) (suc fuel) n h = ground (
  arith,
  len-digit n,
  len-digit (n % 10),
  len-append (decimal_from fuel (n / 10)) (digit (n % 10)),
  len-decimal_from k fuel (n / 10) (omega arith),
)

-- A number below 10 ^ (k + 1) has at most k + 1 digits.
pub len-decimal : (k n : ℕ) → n < 10 * power_of_ten k → len (decimal n) ≤ suc k
unfolding decimal
len-decimal k n h = len-decimal_from k (n + 1) n h

decimal_runs : decimal 1763 ≡ "1763"
unfolding decimal
decimal_runs = refl

elem-insert_sorted :
    (z x : String) (ys : List String) → elem z (insert_sorted x ys) ≡ elem z (x ∷ ys)
unfolding insert_sorted
elem-insert_sorted z x [] = refl
elem-insert_sorted z x (y ∷ ys) = ground (arith, elem-insert_sorted z x ys)

-- Sorting keeps the members.
pub elem-sort_strings : (z : String) (xs : List String) → elem z (sort_strings xs) ≡ elem z xs
unfolding sort_strings
elem-sort_strings z [] = refl
elem-sort_strings z (x ∷ xs) =
    ground (arith, elem-insert_sorted z x (sort_strings xs), elem-sort_strings z xs)

Nodup-insert_sorted :
    (x : String) (ys : List String) → elem x ys ≡ false → Nodup ys → Nodup (insert_sorted x ys)
unfolding insert_sorted
Nodup-insert_sorted x [] h n = (refl, tt)
Nodup-insert_sorted x (y ∷ ys) h n =
    ground (arith, elem-insert_sorted y x ys, Nodup-insert_sorted x ys)

pub Nodup-sort_strings : (xs : List String) → Nodup xs → Nodup (sort_strings xs)
unfolding sort_strings
Nodup-sort_strings [] n = tt
Nodup-sort_strings (x ∷ xs) n =
    Nodup-insert_sorted x (sort_strings xs) (rw elem-sort_strings n.0) (Nodup-sort_strings xs n.1)
