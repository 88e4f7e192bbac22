-- ===== src/Dag/Build/Deps.antt =====
-- The second loop of `Build`: it accepts dependencies that are other nodes, each listed once, and
-- records them by node.
use kube_task.Base.{
  String, true, false, List, [], ◌∷◌, ◌++◌, ◌==◌, if◌then◌else◌, elem, Nodup, keys, insert,
  is_some-lookup, lookup-insert, Nodup-keys-insert, append_assoc, append-nil, ◌≡◌, refl, arith,
  Bool-cases, inl, inr,
}
use kube_task.Api.{WorkflowTask}
use kube_task.Dag.Accessors.{deps_in}
use kube_task.Dag.Validate.{
  accepted, >>=-eq-accepted, TaskMap, DepMap, check_dep, add_deps_of, add_deps,
}
use kube_task.Dag.Build.Spec.{names_of, edges_of, IsValidDeps, AllDeps}

deps_in-insert :
    (name n : String) (ds : List String) (deps : DepMap)
    → deps_in (insert name ds deps) n ≡ (if name == n then ds else deps_in deps n)
deps_in-insert name n ds deps = ground (arith, lookup-insert name n ds deps)

module _ (quote : String → String) (tasks : TaskMap) where
  check_dep_sound :
      (name : String) (seen : List String) (d : String)
      → check_dep quote tasks name seen d ≡ accepted tt
      → ((d == "") ≡ false)
        × ((d == name) ≡ false)
        × (elem d (keys tasks) ≡ true)
        × (elem d seen ≡ false)
  unfolding check_dep
  check_dep_sound name seen d h =
      (ground arith, ground arith, ground (arith, is_some-lookup d tasks), ground arith)

  check_dep_total :
      (name : String) (seen : List String) (d : String)
      → (d == "") ≡ false
      → (d == name) ≡ false
      → elem d (keys tasks) ≡ true
      → elem d seen ≡ false
      → check_dep quote tasks name seen d ≡ accepted tt
  unfolding check_dep
  check_dep_total name seen d h₁ h₂ h₃ h₄ = ground (arith, is_some-lookup d tasks)

  record Recorded (name : String) (seen : List String) (deps : DepMap) (ds : List String)
      (deps' : DepMap) : Type 0 where
    valid : IsValidDeps (keys tasks) name ds
    unseen : (d : String) → elem d ds ≡ true → elem d seen ≡ false
    entry :
        (n : String)
        → deps_in deps' n ≡ (if name == n then deps_in deps n ++ ds else deps_in deps n)
    distinct : Nodup (keys deps) → Nodup (keys deps')

  add_deps_of-Recorded :
      (name : String) (seen : List String) (deps deps' : DepMap) (ds : List String)
      → add_deps_of quote tasks name seen deps ds ≡ accepted deps'
      → Recorded name seen deps ds deps'
  unfolding add_deps_of
  add_deps_of-Recorded name seen deps deps' [] h = record {
    valid = record { distinct = tt; others = λ d k. cc; nonempty = λ d k. cc; known = λ d k. cc };
    unseen = λ d k. cc;
    entry = λ n. ground (arith, append-nil (deps_in deps n));
    distinct = λ k. ground arith;
  }
  add_deps_of-Recorded name seen deps deps' (x ∷ ds) h =
      let grown : DepMap = insert name (deps_in deps name ++ x ∷ []) deps in
      let (u, checked, more) =
        >>=-eq-accepted (check_dep quote tasks name seen x)
          (λ _. add_deps_of quote tasks name (x ∷ seen) grown ds) h in
      let (nonempty, other, known, unseen) = check_dep_sound name seen x checked in
      let rest = add_deps_of-Recorded name (x ∷ seen) grown deps' ds more in
      record {
        valid = record {
          distinct = (
            elim (Bool-cases (elem x ds)) [
              | inl twice ↦ ground (arith, rest.unseen x twice)
              | inr once ↦ once
            ],
            rest.valid.distinct,
          );
          others = λ d k. ground (arith, rest.valid.others d);
          nonempty = λ d k. ground (arith, rest.valid.nonempty d);
          known = λ d k. ground (arith, rest.valid.known d);
        };
        unseen = λ d k. ground (arith, rest.unseen d);
        entry = λ n. ground (
          arith,
          rest.entry n,
          deps_in-insert name n (deps_in deps name ++ x ∷ []) deps,
          append_assoc (deps_in deps n) (x ∷ []) ds,
        );
        distinct = λ k. rest.distinct (Nodup-keys-insert name (deps_in deps name ++ x ∷ []) deps k);
      }

  add_deps_of_total :
      (name : String) (seen : List String) (deps : DepMap) (ds : List String)
      → IsValidDeps (keys tasks) name ds
      → ((d : String) → elem d ds ≡ true → elem d seen ≡ false)
      → (deps' : DepMap) × (add_deps_of quote tasks name seen deps ds ≡ accepted deps')
  unfolding add_deps_of
  add_deps_of_total name seen deps [] v unseen = (deps, refl)
  add_deps_of_total name seen deps (x ∷ ds) v unseen =
      let at_head : elem x (x ∷ ds) ≡ true = ground arith in
      rw
        (check_dep_total name seen x (v.nonempty x at_head) (v.others x at_head) (v.known x at_head)
          (unseen x at_head))
        (add_deps_of_total name (x ∷ seen) (insert name (deps_in deps name ++ x ∷ []) deps) ds
          (record {
            distinct = v.distinct.1;
            others = λ d k. v.others d (ground arith);
            nonempty = λ d k. v.nonempty d (ground arith);
            known = λ d k. v.known d (ground arith);
          })
          (λ d k. ground (arith, unseen d, v.distinct.0)))

  -- The entries of the nodes of `ts`, over those of `deps`.
  pub record Resolved (deps : DepMap) (ts : List WorkflowTask) (deps' : DepMap) : Type 0 where
    pub valid : AllDeps (keys tasks) ts
    pub entry :
        (n : String)
        → deps_in deps' n
          ≡ (if elem n (names_of ts) then deps_in deps n ++ edges_of ts n else deps_in deps n)
    pub distinct : Nodup (keys deps) → Nodup (keys deps')

  pub edges_of_absent :
      (n : String) (ts : List WorkflowTask) → elem n (names_of ts) ≡ false → edges_of ts n ≡ []
  edges_of_absent n [] h = refl
  edges_of_absent n (t ∷ ts) h = ground (arith, edges_of_absent n ts)

  pub add_deps-Resolved :
      (deps deps' : DepMap) (ts : List WorkflowTask)
      → Nodup (names_of ts)
      → add_deps quote tasks deps ts ≡ accepted deps'
      → Resolved deps ts deps'
  unfolding add_deps
  add_deps-Resolved deps deps' [] d h = record {
    valid = tt;
    entry = λ n. ground arith;
    distinct = λ k. ground arith;
  }
  add_deps-Resolved deps deps' (t ∷ ts) d h =
      let (deps₁, one, more) =
        >>=-eq-accepted (add_deps_of quote tasks t.name [] deps t.depends_on)
          (λ deps₁. add_deps quote tasks deps₁ ts) h in
      let first = add_deps_of-Recorded t.name [] deps deps₁ t.depends_on one in
      let rest = add_deps-Resolved deps₁ deps' ts d.1 more in
      record {
        valid = (first.valid, rest.valid);
        entry = λ n. ground (arith, first.entry n, rest.entry n, d.0);
        distinct = λ k. rest.distinct (first.distinct k);
      }

  pub add_deps_total :
      (deps : DepMap) (ts : List WorkflowTask)
      → AllDeps (keys tasks) ts
      → (deps' : DepMap) × (add_deps quote tasks deps ts ≡ accepted deps')
  unfolding add_deps
  add_deps_total deps [] v = (deps, refl)
  add_deps_total deps (t ∷ ts) v =
      let (deps₁, one) = add_deps_of_total t.name [] deps t.depends_on v.0 (λ d k. refl) in
      rw one (add_deps_total deps₁ ts v.1)
