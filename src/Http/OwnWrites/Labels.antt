-- ===== src/Http/OwnWrites/Labels.antt =====
-- The tenant's label on what a handler of internal/api/handler finds and writes, and what a call keeps.
use kube_task.Base.{
  eq-path, eq_of_path, String, String_discrete, Bool, true, false, not, ◌&&◌, List, ◌==◌,
  if◌then◌else◌, insert, get_or, lookup-insert, cases-if, ◌≡◌, refl, sym, ap, ◌∙◌, subst,
}
use kube_task.Api.{Meta, Task}
use kube_task.Kube.{Error, Reply, done, failed, Call, and_then, pure, throw}
use kube_task.Tenant.{tenant_label, label_of, set_namespace}
use kube_task.Http.Request.{Objects, Response, after_call, handle}
use kube_task.Http.Tenancy.{visible}
use kube_task.Http.TaskHandler.{merge_update}

-- The object carries the tenant's label.
abbrev pub Owned : String → Meta → Type 0
Owned namespace meta = (label_of tenant_label meta.labels == namespace) ≡ true

tenant_label_refl : (tenant_label == tenant_label) ≡ true
unfolding String_discrete
tenant_label_refl = refl

pub label_of-insert :
    (namespace : String) (labels : List (String × String))
    → label_of tenant_label (insert tenant_label namespace labels) ≡ namespace
label_of-insert namespace labels =
    ap (get_or "") (lookup-insert tenant_label tenant_label namespace labels)
    ∙ rw tenant_label_refl refl

-- A label that is set is there.
pub set_namespace-Owned :
    (namespace : String) (labels : List (String × String))
    → (namespace == "") ≡ false
    → (label_of tenant_label (set_namespace labels namespace) == namespace) ≡ true
unfolding set_namespace
set_namespace-Owned namespace labels h = rw h (eq_of_path _ _ (label_of-insert namespace labels))

pub merge_update-Owned :
    (namespace : String) (existing updated : Task)
    → (namespace == "") ≡ false
    → Owned namespace existing.meta
    → Owned namespace (merge_update existing updated).meta
unfolding merge_update
merge_update-Owned namespace existing updated h o =
    let same : label_of tenant_label existing.meta.labels ≡ namespace = eq-path _ _ o in
    subst (λ n. (label_of tenant_label (set_namespace updated.meta.labels n) == namespace) ≡ true)
      (sym same) (set_namespace-Owned namespace updated.meta.labels h)

module _ {S A : Type 0} (P : S → Type 0) where
  -- What holds after a call and after what follows it.
  pub after_call-keeps :
      (on_error : Error → Response) (next : A → S → Response × S) (r : Reply A) (s : S)
      → P s
      → ((a : A) → r ≡ done a → P (next a s).1)
      → P (after_call on_error next r s).1
  unfolding after_call
  after_call-keeps on_error next (done a) s p more = more a refl
  after_call-keeps on_error next (failed e) s p more = p

  pub handle-keeps :
      (call : Call S A) (on_error : Error → Response) (next : A → S → Response × S) (s : S)
      → P (call s).1
      → ((a : A) → (call s).0 ≡ done a → P (next a (call s).1).1)
      → P (handle call on_error next s).1
  unfolding handle
  handle-keeps call on_error next s p more =
      after_call-keeps on_error next (call s).0 (call s).1 p more

  own :
      (absent same : Bool) (x a : A) (s : S)
      → ((if not absent && not same then throw Error.not_found else pure x) s).0 ≡ done a
      → absent ≡ false
      → (same ≡ true) × (x ≡ a)
  own true same x a s k h = absurd cc
  own false true x a s k h = (refl, cc)
  own false false x a s k h = absurd (let e = k in cc)

  -- An object that a tenant finds is its own, and the check changes nothing.
  pub visible-Owned :
      (objects : Objects S A) (meta_of : A → Meta) (namespace : String) (r : Reply A) (s : S)
      (a : A)
      → (namespace == "") ≡ false
      → (and_then r (visible objects meta_of namespace) s).0 ≡ done a
      → Owned namespace (meta_of a)
  unfolding visible
  visible-Owned objects meta_of namespace (failed e) s a h k = absurd cc
  visible-Owned objects meta_of namespace (done b) s a h k =
      let (same, one) =
        own (namespace == "") (label_of tenant_label (meta_of b).labels == namespace) b a s k h in
      subst (λ x. Owned namespace (meta_of x)) one same

  pub visible-keeps :
      (objects : Objects S A) (meta_of : A → Meta) (namespace : String) (r : Reply A) (s : S)
      → (and_then r (visible objects meta_of namespace) s).1 ≡ s
  unfolding visible
  visible-keeps objects meta_of namespace (failed e) s = refl
  visible-keeps objects meta_of namespace (done b) s =
      cases-if (λ call. (call s).1 ≡ s)
        (not (namespace == "") && not (label_of tenant_label (meta_of b).labels == namespace))
        {x = throw Error.not_found} {y = pure b} (λ is. refl) (λ is. refl)
