-- ===== src/Dag/Build/Tasks.antt =====
-- The first loop of `Build`: it accepts the tasks that are well formed, and indexes them by name.
use kube_task.Base.{
  ℕ, ◌+◌, String, true, false, ◌||◌, List, [], ◌∷◌, ◌++◌, ◌==◌, elem, Nodup, keys, insert,
  is_some-lookup, append_assoc, append-nil, ◌≡◌, refl, arith, Bool-cases, inl, inr, ◌∙◌, ap,
}
use kube_task.Api.{WorkflowTask, TaskSpec}
use kube_task.Dag.Validate.{accepted, >>=-eq-accepted, TaskMap, add_task, add_tasks}
use kube_task.Dag.Build.Spec.{names_of, IsValidTask, AllTasks}

abbrev pub entries : List WorkflowTask → TaskMap
entries [] = []
entries (t ∷ ts) = (t.name, t) ∷ entries ts

pub keys-entries : (ts : List WorkflowTask) → keys (entries ts) ≡ names_of ts
keys-entries [] = refl
keys-entries (t ∷ ts) = ap (λ l. t.name ∷ l) (keys-entries ts)

insert_new :
    {V : Type 0} (k : String) (v : V) (m : List (String × V))
    → elem k (keys m) ≡ false
    → insert k v m ≡ m ++ (k, v) ∷ []
insert_new k v [] h = refl
insert_new k v ((j, w) ∷ m) h = ground (arith, insert_new k v m)

keys-append :
    {V : Type 0} (k : String) (m n : List (String × V))
    → elem k (keys (m ++ n)) ≡ (elem k (keys m) || elem k (keys n))
keys-append k [] n = refl
keys-append k ((j, v) ∷ m) n = ground (arith, keys-append k m n)

module _ (quote : String → String) (templates : List (String × TaskSpec)) where
  add_task_sound :
      (i : ℕ) (m m' : TaskMap) (t : WorkflowTask)
      → add_task quote templates i m t ≡ accepted m'
      → (elem t.name (keys m) ≡ false) × IsValidTask templates t × (m' ≡ m ++ (t.name, t) ∷ [])
  unfolding add_task
  add_task_sound i m m' t h = (
    ground (arith, is_some-lookup t.name m),
    ground arith,
    ground (arith, is_some-lookup t.name m, insert_new t.name t m),
  )

  add_task_total :
      (i : ℕ) (m : TaskMap) (t : WorkflowTask)
      → elem t.name (keys m) ≡ false
      → IsValidTask templates t
      → add_task quote templates i m t ≡ accepted (m ++ (t.name, t) ∷ [])
  unfolding add_task
  add_task_total i m t h v = ground (arith, is_some-lookup t.name m, insert_new t.name t m)

  pub record Added (m : TaskMap) (ts : List WorkflowTask) (m' : TaskMap) : Type 0 where
    pub result : m' ≡ m ++ entries ts
    pub valid : AllTasks templates ts
    pub distinct : Nodup (names_of ts)
    pub apart : (n : String) → elem n (names_of ts) ≡ true → elem n (keys m) ≡ false

  pub add_tasks-Added :
      (i : ℕ) (m m' : TaskMap) (ts : List WorkflowTask)
      → add_tasks quote templates i m ts ≡ accepted m'
      → Added m ts m'
  unfolding add_tasks
  add_tasks-Added i m m' [] h = record {
    result = ground (arith, append-nil m);
    valid = tt;
    distinct = tt;
    apart = λ n k. cc;
  }
  add_tasks-Added i m m' (t ∷ ts) h =
      let (m₁, one, more) =
        >>=-eq-accepted (add_task quote templates i m t)
          (λ m₁. add_tasks quote templates (i + 1) m₁ ts) h in
      let (new, valid, grown) = add_task_sound i m m₁ t one in
      let rest = add_tasks-Added (i + 1) m₁ m' ts more in
      record {
        result =
            rest.result ∙ ap (λ l. l ++ entries ts) grown ∙ append_assoc m ((t.name, t) ∷ []) _;
        valid = (valid, rest.valid);
        distinct = (
          elim (Bool-cases (elem t.name (names_of ts))) [
            | inl twice ↦ ground (
              arith,
              rest.apart t.name twice,
              ap (λ l. elem t.name (keys l)) grown,
              keys-append t.name m ((t.name, t) ∷ []),
            )
            | inr once ↦ once
          ],
          rest.distinct,
        );
        apart = λ n k. elim (Bool-cases (n == t.name)) [
          | inl same ↦ ground arith
          | inr other ↦ ground (
            arith,
            rest.apart n,
            ap (λ l. elem n (keys l)) grown,
            keys-append n m ((t.name, t) ∷ []),
          )
        ];
      }

  pub add_tasks_total :
      (i : ℕ) (m : TaskMap) (ts : List WorkflowTask)
      → AllTasks templates ts
      → Nodup (names_of ts)
      → ((n : String) → elem n (names_of ts) ≡ true → elem n (keys m) ≡ false)
      → add_tasks quote templates i m ts ≡ accepted (m ++ entries ts)
  unfolding add_tasks
  add_tasks_total i m [] v d apart = ground (arith, append-nil m)
  add_tasks_total i m (t ∷ ts) v d apart =
      rw (add_task_total i m t (apart t.name (ground arith)) v.0) (
        add_tasks_total (i + 1) (m ++ (t.name, t) ∷ []) ts v.1 d.1
          (λ n h. ground (arith, keys-append n m ((t.name, t) ∷ []), apart n))
        ∙ ap accepted (append_assoc m ((t.name, t) ∷ []) (entries ts)))
