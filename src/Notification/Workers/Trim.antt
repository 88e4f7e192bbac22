-- ===== src/Notification/Workers/Trim.antt =====
-- What `prune` and `finish` drop: handled ids, each with its record.
use kube_task.Base.{
  ℕ, suc, ◌+◌, ◌≤◌, ◌<◌, String, true, false, List, [], ◌∷◌, ◌++◌, ◌==◌, if◌then◌else◌, elem,
  length, keys, delete_key, keys-delete_key, ltb_ℤ, ◌-ℤ◌, leb, ◌≡◌, refl, arith, Bool-cases, inl,
  inr,
}
use kube_task.Api.{Time}
use kube_task.Notification.Event.{Event}
use kube_task.Notification.Queue.{
  DeliveryState, completed_capacity, completed_ttl, prune_entries, evict,
}

-- How often a name stands in a list.
abbrev pub times : String → List String → ℕ
times n [] = 0
times n (x ∷ xs) = let rest = times n xs in if x == n then suc rest else rest

pub times-append : (n : String) (xs ys : List String) → times n (xs ++ ys) ≡ times n xs + times n ys
times-append n [] ys = omega arith
times-append n (x ∷ xs) ys = ground (arith, times-append n xs ys)

abbrev pub event_ids : List Event → List String
event_ids [] = []
event_ids (e ∷ es) = e.id ∷ event_ids es

pub event_ids-append : (xs ys : List Event) → event_ids (xs ++ ys) ≡ event_ids xs ++ event_ids ys
event_ids-append [] ys = refl
event_ids-append (x ∷ xs) ys = cc (event_ids-append xs ys)

pub keys-append : (xs ys : List (String × Time)) → keys (xs ++ ys) ≡ keys xs ++ keys ys
keys-append [] ys = refl
keys-append (x ∷ xs) ys = ground (arith, keys-append xs ys)

-- Handled ids are dropped; whoever is not dropped keeps its record.
pub record Trimmed (done done' : List (String × Time))
    (records records' : List (String × DeliveryState)) : Type 0 where
  pub shorter : length done' ≤ length done
  pub fewer : (n : String) → times n (keys done') ≤ times n (keys done)
  pub kept :
      (n : String)
      → times n (keys done') ≡ times n (keys done)
      → elem n (keys records) ≡ true
      → elem n (keys records') ≡ true

Trimmed-refl :
    (done : List (String × Time)) (records : List (String × DeliveryState))
    → Trimmed done done records records
Trimmed-refl done records = record {
  shorter = omega arith;
  fewer = λ n. omega arith;
  kept = λ n e h. h;
}

Trimmed-drop :
    (id : String) (at : Time) (rest done' : List (String × Time))
    (records records' : List (String × DeliveryState))
    → Trimmed rest done' (delete_key id records) records'
    → Trimmed ((id, at) ∷ rest) done' records records'
Trimmed-drop id at rest done' records records' t = record {
  shorter = omega (arith, t.shorter);
  fewer = λ n. ground (arith, t.fewer n);
  kept = λ n e h. ground (arith, t.fewer n, t.kept n, keys-delete_key id n records);
}

pub prune_entries-Trimmed :
    (now : Time) (done : List (String × Time)) (records : List (String × DeliveryState))
    → let r = prune_entries now done records in Trimmed done r.1 records r.0
unfolding prune_entries
prune_entries-Trimmed now [] records = Trimmed-refl [] records
prune_entries-Trimmed now ((id, at) ∷ rest) records =
    elim (Bool-cases (ltb_ℤ (now -ℤ at) completed_ttl)) [
      | inl h ↦ rw h (Trimmed-refl ((id, at) ∷ rest) records)
      | inr h ↦ rw h (
          Trimmed-drop id at rest _ records _
            (prune_entries-Trimmed now rest (delete_key id records)))
    ]

pub evict-Trimmed :
    (done : List (String × Time)) (records : List (String × DeliveryState))
    → let r = evict done records in Trimmed done r.1 records r.0
unfolding evict
evict-Trimmed [] records = Trimmed-refl [] records
evict-Trimmed ((id, at) ∷ rest) records =
    elim (Bool-cases (leb completed_capacity (length ((id, at) ∷ rest)))) [
      | inl h ↦
          rw h (Trimmed-drop id at rest _ records _ (evict-Trimmed rest (delete_key id records)))
      | inr h ↦ rw h (Trimmed-refl ((id, at) ∷ rest) records)
    ]

leb-lt : (a b : ℕ) → leb a b ≡ false → b < a
leb-lt a b h = ground arith

-- There is room for one more id.
pub evict-lt :
    (done : List (String × Time)) (records : List (String × DeliveryState))
    → length (evict done records).1 < completed_capacity
unfolding evict
evict-lt [] records = omega arith
evict-lt ((id, at) ∷ rest) records =
    elim (Bool-cases (leb completed_capacity (length ((id, at) ∷ rest)))) [
      | inl h ↦ rw h (evict-lt rest (delete_key id records))
      | inr h ↦ rw h (leb-lt completed_capacity (length ((id, at) ∷ rest)) h)
    ]
