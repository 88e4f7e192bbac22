-- ===== src/Dag/Kahn/Unmet.antt =====
-- How many dependencies of a node are not done yet: what an in-degree counts.
use kube_task.Base.{
  ℕ, suc, ◌≤◌, String, false, List, [], ◌∷◌, ◌++◌, if◌then◌else◌, elem, Nodup, Within, length,
  elem-append, ◌≡◌, refl, arith,
}

pub unmet : List String → List String → ℕ
unmet done [] = 0
unmet done (x ∷ xs) = let rest = unmet done xs in if elem x done then rest else suc rest

pub unmet-nil : (xs : List String) → unmet [] xs ≡ length xs
unfolding unmet
unmet-nil [] = refl
unmet-nil (x ∷ xs) = ground (arith, unmet-nil xs)

pub unmet-same :
    (a b xs : List String) → ((n : String) → elem n a ≡ elem n b) → unmet a xs ≡ unmet b xs
unfolding unmet
unmet-same a b [] same = refl
unmet-same a b (x ∷ xs) same = ground (arith, same x, unmet-same a b xs same)

pub unmet-append-le : (a b xs : List String) → unmet (a ++ b) xs ≤ unmet a xs
unfolding unmet
unmet-append-le a b [] = omega arith
unmet-append-le a b (x ∷ xs) = ground (arith, elem-append x a b, unmet-append-le a b xs)

unmet-cons_absent :
    (m : String) (done xs : List String) → elem m xs ≡ false → unmet (m ∷ done) xs ≡ unmet done xs
unfolding unmet
unmet-cons_absent m done [] h = refl
unmet-cons_absent m done (x ∷ xs) h = ground (arith, unmet-cons_absent m done xs)

-- A node that gets done is one dependency less for each node that depends on it.
pub unmet-cons :
    (m : String) (done xs : List String)
    → Nodup xs
    → elem m done ≡ false
    → unmet done xs ≡ (if elem m xs then suc (unmet (m ∷ done) xs) else unmet (m ∷ done) xs)
unfolding unmet
unmet-cons m done [] n h = refl
unmet-cons m done (x ∷ xs) n h =
    ground (arith, unmet-cons m done xs n.1 h, unmet-cons_absent m done xs)

pub unmet_zero : (done xs : List String) → unmet done xs ≡ 0 → Within xs done
unfolding unmet
unmet_zero done [] h n m = cc
unmet_zero done (x ∷ xs) h n m = ground (arith, unmet_zero done xs (ground arith) n)

pub unmet_zero_of_elem : (done xs : List String) → Within xs done → unmet done xs ≡ 0
unfolding unmet
unmet_zero_of_elem done [] h = refl
unmet_zero_of_elem done (x ∷ xs) h =
    ground (arith, h x, unmet_zero_of_elem done xs (λ n k. h n (ground arith)))

pub unmet_of_nil : (done xs : List String) → xs ≡ [] → unmet done xs ≡ 0
unfolding unmet
unmet_of_nil done xs e = rw e refl
