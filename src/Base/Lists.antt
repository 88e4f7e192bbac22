-- ===== src/Base/Lists.antt =====
-- Lists measured by native numbers, lists of names, and maps from names as association lists.
use Prim.Native.Nat.{ℕ, zero, suc, ◌+◌}
use Prim.Native.String.{String}
use mathlib.Core.Path.{◌≡◌, refl}
use mathlib.Core.Bool.{Bool, true, false, ◌||◌, ◌&&◌}
use mathlib.Core.Option.{Option, none, some}
use mathlib.Core.List.{List, [], ◌∷◌, ◌++◌}
use native.Mathlib.Omega.{arith}
use kube_task.Base.Tests.{◌==◌, if◌then◌else◌}

module _ {ℓ} {A : Type ℓ} where
  abbrev pub length : List A → ℕ
  length [] = 0
  length (x ∷ xs) = suc (length xs)

  pub length-append : (xs ys : List A) → length (xs ++ ys) ≡ length xs + length ys
  length-append [] ys = omega arith
  length-append (x ∷ xs) ys = omega (arith, length-append xs ys)

  -- What remains of a slice after its first entries.
  abbrev pub drop : ℕ → List A → List A
  drop zero xs = xs
  drop (suc n) [] = []
  drop (suc n) (x ∷ xs) = drop n xs

  abbrev pub take : ℕ → List A → List A
  take zero xs = []
  take (suc n) [] = []
  take (suc n) (x ∷ xs) = x ∷ take n xs

  abbrev pub get_elem? : List A → ℕ → Option A
  get_elem? [] i = none
  get_elem? (x ∷ xs) zero = some x
  get_elem? (x ∷ xs) (suc i) = get_elem? xs i

  -- A write out of bounds changes nothing.
  abbrev pub set : List A → ℕ → A → List A
  set [] i v = []
  set (x ∷ xs) zero v = v ∷ xs
  set (x ∷ xs) (suc i) v = x ∷ set xs i v

  abbrev pub keep : (A → Bool) → List A → List A
  keep p [] = []
  keep p (x ∷ xs) = if p x then x ∷ keep p xs else keep p xs

  abbrev pub any : (A → Bool) → List A → Bool
  any p [] = false
  any p (x ∷ xs) = p x || any p xs

  abbrev pub all : (A → Bool) → List A → Bool
  all p [] = true
  all p (x ∷ xs) = p x && all p xs

  abbrev pub All {κ} : (A → Type κ) → List A → Type κ
  All P [] = Unit
  All P (x ∷ xs) = P x × All P xs

abbrev pub is_some {ℓ} : {A : Type ℓ} → Option A → Bool
is_some none = false
is_some (some a) = true

abbrev pub get_or {ℓ} : {A : Type ℓ} → A → Option A → A
get_or d none = d
get_or d (some a) = a

abbrev pub elem : String → List String → Bool
elem x [] = false
elem x (y ∷ ys) = x == y || elem x ys

abbrev pub Nodup : List String → Type 0
Nodup [] = Unit
Nodup (x ∷ xs) = (elem x xs ≡ false) × Nodup xs

pub elem-append : (x : String) (xs ys : List String) → elem x (xs ++ ys) ≡ (elem x xs || elem x ys)
elem-append x [] ys = refl
elem-append x (y ∷ xs) ys = ground (arith, elem-append x xs ys)

-- A map from names, in the order of its insertions; a missing key reads as `none`.
module _ {ℓ} {V : Type ℓ} where
  abbrev pub keys : List (String × V) → List String
  keys [] = []
  keys ((k, v) ∷ m) = k ∷ keys m

  abbrev pub lookup : String → List (String × V) → Option V
  lookup wanted [] = none
  lookup wanted ((key, value) ∷ entries) =
      if key == wanted then some value else lookup wanted entries

  -- An entry is replaced where it stands; a new one comes last.
  abbrev pub insert : String → V → List (String × V) → List (String × V)
  insert key value [] = (key, value) ∷ []
  insert key value (entry ∷ entries) =
      if entry.0 == key then (key, value) ∷ entries else entry ∷ insert key value entries

  -- `delete(m, key)`
  abbrev pub delete_key : String → List (String × V) → List (String × V)
  delete_key key [] = []
  delete_key key (entry ∷ entries) =
      let rest = delete_key key entries in if entry.0 == key then rest else entry ∷ rest

  pub keys-delete_key :
      (key wanted : String) (entries : List (String × V))
      → elem wanted (keys (delete_key key entries))
        ≡ (if key == wanted then false else elem wanted (keys entries))
  keys-delete_key key wanted [] = ground arith
  keys-delete_key key wanted (entry ∷ entries) = ground (arith, keys-delete_key key wanted entries)

  pub lookup-insert :
      (key wanted : String) (value : V) (entries : List (String × V))
      → lookup wanted (insert key value entries)
        ≡ (if key == wanted then some value else lookup wanted entries)
  lookup-insert key wanted value [] = refl
  lookup-insert key wanted value (entry ∷ entries) =
      ground (arith, lookup-insert key wanted value entries)

  pub is_some-lookup : (k : String) (m : List (String × V)) → is_some (lookup k m) ≡ elem k (keys m)
  is_some-lookup k [] = refl
  is_some-lookup k ((j, v) ∷ m) = ground (arith, is_some-lookup k m)

  pub keys-insert :
      (k j : String) (v : V) (m : List (String × V))
      → elem j (keys (insert k v m)) ≡ (j == k || elem j (keys m))
  keys-insert k j v [] = refl
  keys-insert k j v ((i, w) ∷ m) = ground (arith, keys-insert k j v m)

  pub Nodup-keys-insert :
      (k : String) (v : V) (m : List (String × V)) → Nodup (keys m) → Nodup (keys (insert k v m))
  Nodup-keys-insert k v [] n = (refl, tt)
  Nodup-keys-insert k v ((j, w) ∷ m) n =
      ground (arith, keys-insert k j v m, Nodup-keys-insert k v m)
