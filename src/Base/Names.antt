-- ===== src/Base/Names.antt =====
-- Lists of names as finite sets: appending, subsets and counting.
use kube_task.Base.Tests.{◌==◌, if◌then◌else◌, Bool-cases}
use kube_task.Base.Lists.{length, elem, Nodup, elem-append}
use Prim.Native.Nat.{suc, ◌≤◌}
use Prim.Native.String.{String}
use mathlib.Core.Path.{◌≡◌, refl}
use mathlib.Core.Logic.{inl, inr}
use mathlib.Core.Bool.{true, false}
use mathlib.Core.List.{List, [], ◌∷◌, ◌++◌}
use native.Mathlib.Omega.{arith}

-- Every name of the first list stands in the second.
abbrev pub Within : List String → List String → Type 0
Within xs ys = (n : String) → elem n xs ≡ true → elem n ys ≡ true

pub Nodup-snoc :
    (xs : List String) (x : String) → Nodup xs → elem x xs ≡ false → Nodup (xs ++ x ∷ [])
Nodup-snoc [] x n h = (refl, tt)
Nodup-snoc (y ∷ xs) x n h = ground (arith, Nodup-snoc xs x n.1, elem-append y xs (x ∷ []))

pub Nodup-append :
    (xs ys : List String)
    → Nodup xs
    → Nodup ys
    → ((n : String) → elem n xs ≡ true → elem n ys ≡ false)
    → Nodup (xs ++ ys)
Nodup-append [] ys nx ny apart = ny
Nodup-append (x ∷ xs) ys nx ny apart = (
  ground (arith, elem-append x xs ys, apart x),
  Nodup-append xs ys nx.1 ny (λ n h. apart n (ground arith)),
)

pub Nodup-append_left : (xs ys : List String) → Nodup (xs ++ ys) → Nodup xs
Nodup-append_left [] ys n = tt
Nodup-append_left (x ∷ xs) ys n = ground (arith, elem-append x xs ys, Nodup-append_left xs ys n.1)

pub Nodup-append_right : (xs ys : List String) → Nodup (xs ++ ys) → Nodup ys
Nodup-append_right [] ys n = n
Nodup-append_right (x ∷ xs) ys n = Nodup-append_right xs ys n.1

pub Nodup-append_apart :
    (xs ys : List String) (n : String) → Nodup (xs ++ ys) → elem n ys ≡ true → elem n xs ≡ false
Nodup-append_apart [] ys n d h = refl
Nodup-append_apart (x ∷ xs) ys n d h =
    ground (arith, elem-append x xs ys, Nodup-append_apart xs ys n d.1 h)

-- The list without the first occurrence of a name.
remove : String → List String → List String
remove x [] = []
remove x (y ∷ ys) = if x == y then ys else y ∷ remove x ys

length-remove :
    (x : String) (ys : List String) → elem x ys ≡ true → suc (length (remove x ys)) ≡ length ys
unfolding remove
length-remove x [] h = cc
length-remove x (y ∷ ys) h = ground (arith, length-remove x ys)

elem-remove :
    (n x : String) (ys : List String)
    → (n == x) ≡ false
    → elem n ys ≡ true
    → elem n (remove x ys) ≡ true
unfolding remove
elem-remove n x [] d h = h
elem-remove n x (y ∷ ys) d h = ground (arith, elem-remove n x ys d)

-- A list without repetitions is no longer than one that it stands within.
pub length-le_of_Within : (xs ys : List String) → Nodup xs → Within xs ys → length xs ≤ length ys
length-le_of_Within [] ys n w = omega arith
length-le_of_Within (x ∷ xs) ys n w = omega (
  arith,
  length-remove x ys (w x (ground arith)),
  length-le_of_Within xs (remove x ys) n.1
      (λ m h. elem-remove m x ys (ground arith) (w m (ground arith))),
)

-- So one that is as long holds the same names.
pub Within-of_length :
    (xs ys : List String) → Nodup xs → Within xs ys → length xs ≡ length ys → Within ys xs
Within-of_length xs ys n w e m h = elim (Bool-cases (elem m xs)) [
  | inl found ↦ found
  | inr absent ↦
      absurd
        (omega (arith, length-le_of_Within (m ∷ xs) ys (absent, n) (λ k hk. ground (arith, w k))))
]
