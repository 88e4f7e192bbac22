-- ===== src/Http/Tenancy.antt =====
-- internal/api/handler/tenant.go: what a tenant sees and writes.
use kube_task.Base.{String, not, ◌&&◌, Option, none, some, List, [], ◌∷◌, ◌==◌, if◌then◌else◌}
use kube_task.Api.{Meta}
use kube_task.Kube.{Error, Call, pure, throw, ◌>>=◌}
use kube_task.Tenant.{tenant_label, label_of, set_namespace}
use kube_task.Http.Request.{Objects}

unfoldable pub prepare_tenant_create : String → Meta → Meta
unfolding set_namespace
prepare_tenant_create namespace meta = record meta {
  labels = set_namespace meta.labels namespace;
  owners = if not (namespace == "") then [] else meta.owners;
}

unfoldable pub tenant_list_options : String → List (String × String)
tenant_list_options namespace = if not (namespace == "") then (tenant_label, namespace) ∷ [] else []

-- `meta_of` is the metadata of the object, as `client.Object` gives them.
module _ {S A : Type 0} (objects : Objects S A) (meta_of : A → Meta) where
  -- The check after the object was read.
  unfoldable pub visible : String → A → Call S A
  visible namespace a =
      if not (namespace == "") && not (label_of tenant_label (meta_of a).labels == namespace)
      then throw Error.not_found
      else pure a

  unfoldable pub get_tenant_object : String → String → Call S A
  unfolding visible
  get_tenant_object namespace name = objects.get name >>= visible namespace

unfoldable pub tenant_delete_options : String → Meta → Option String
tenant_delete_options namespace meta = if not (namespace == "") then some meta.uid else none
