-- ===== src/Http/Router/Guard/Admission.antt =====
-- The whole of `apiMiddlewares` of cmd/main.go in front of a handler.
use kube_task.Base.{
  String, Bool, true, false, Option, none, some, List, ◌==◌, lookup, map, ◌≡◌, refl, sym, ap, subst,
  ◌∙◌,
}
use kube_task.Auth.{ok, UserInfo, Kubernetes, authorize}
use kube_task.Tenant.{service_account_namespace}
use kube_task.Http.Request.{Request}
use kube_task.Http.Bearer.{bearer_token}
use kube_task.Http.Bearer.Header.{Carries, bearer_token-Carries}
use kube_task.Http.Middleware.{
  Context, Next, AuditOperation, Permission, route_permissions, attributes_of, authentication,
  tenant_isolation, authorization, scope_user, audit_operations,
}
use kube_task.Http.Audit.{AuditEvent, audited, audit_as, audit}
use kube_task.Http.Router.{Security, guarded, authenticator, isolated}
use kube_task.Http.Router.Guard.{
  Gate, behind, compose, same_as, Identified, authenticate_header-Gate, Scoped, scope_user-Gate,
  Granted, Authorized, require-Gate,
}

module _ {S : Type 0} (kubernetes : Kubernetes S) (expired : S → Bool × S)
    (emit : AuditEvent → S → S) where
  -- What is known where a handler runs, in the context `d` and the state `t`, for a request with the
  -- header `header` that came in the state `s`: the header carries a token; the authenticator, asked
  -- in `s`, found the identity for that token in time; the route's permissions are in the table, and
  -- from then on Kubernetes granted the identity each of them, in time, for the name and the
  -- namespace that the handler reads; where tenants are isolated, that is the namespace of the
  -- identity, and it is not empty.
  pub record Admitted (security : Security) (route : String) (header : List String)
      (request : Request) (s : S) (d : Context) (t : S) : Type 0 where
    pub user : UserInfo
    pub token : String
    pub carried : Carries header token
    pub identified : (authenticator kubernetes expired emit security token s).0 ≡ ok user
    pub in_time : (expired (authenticator kubernetes expired emit security token s).1).0 ≡ false
    pub known : d.user ≡ some user
    pub permissions : List Permission
    pub listed : lookup route route_permissions ≡ some permissions
    pub granted :
        Granted expired
          (authorize kubernetes)
          user
          (map (attributes_of d) permissions)
          (expired (authenticator kubernetes expired emit security token s).1).1
          t
    pub same_name : d.request.name ≡ request.name
    pub scoped :
        security.isolates_tenants ≡ true
        → (d.request.namespace ≡ service_account_namespace user.username)
          × (service_account_namespace user.username == "" ≡ false)

  weaken :
      (guard : Next expired → Next expired) (c : Context) (s : S) {P Q : Context → S → Type 0}
      → Gate expired guard c s P
      → ((d : Context) (t : S) → P d t → Q d t)
      → Gate expired guard c s Q
  weaken guard c s (Gate.blocked r t h) more = Gate.blocked r t h
  weaken guard c s (Gate.passed d t after p h) more = Gate.passed d t after (more d t p) h

  -- The audit lets everything pass.
  audit_as-Gate :
      (o : Option AuditOperation) (inner : Next expired → Next expired) (c : Context) (s : S)
      {P : Context → S → Type 0}
      → Gate expired inner c s P
      → Gate expired (λ next. audit_as expired emit o (inner next)) c s P
  unfolding audit_as
  audit_as-Gate none inner c s g = same_as expired _ inner c s s _ (λ next. refl) g
  audit_as-Gate (some o) inner c s g =
      behind expired (audit_as expired emit (some o)) inner c c s s
        (audited expired emit o c c.user) (λ next. refl) g

  checks : (route : String) → Next expired → Next expired
  checks route next =
      audit expired emit route (authorization expired (authorize kubernetes) route next)

  checks-Gate :
      (route : String) (c : Context) (s : S)
      → Gate expired (checks route) c s (Authorized expired (authorize kubernetes) route c s)
  unfolding checks audit authorization
  checks-Gate route c s = audit_as-Gate (lookup route audit_operations) _ c s (
      require-Gate expired (authorize kubernetes) route (lookup route route_permissions) c.user c s
        refl refl)

  -- What was granted on the context of the checks was granted on the handler's.
  grants :
      (e f : Context) (u from : S) (user user' : UserInfo) (permissions : List Permission)
      → user' ≡ user
      → f.request ≡ e.request
      → Granted expired (authorize kubernetes) user' (map (attributes_of e) permissions) from u
      → Granted expired (authorize kubernetes) user (map (attributes_of f) permissions) from u
  grants e f u from user user' permissions one same g =
      subst
        (λ r.
          Granted expired (authorize kubernetes) user
            (map (attributes_of (record f { request = r })) permissions) from u)
        (sym same)
        (subst
          (λ x. Granted expired (authorize kubernetes) x (map (attributes_of e) permissions) from u)
          one g)

  -- What the checks found, put together.
  admit :
      (security : Security) (route : String) (header : List String) (c d e f : Context)
      (s t v u : S)
      → Identified expired
          (authenticator kubernetes expired emit security)
          (bearer_token header)
          c
          s
          d
          t
      → (e.request.name ≡ d.request.name)
      → ((user : UserInfo)
          → d.user ≡ some user
          → (e.user ≡ some user)
            × (security.isolates_tenants ≡ true
                → (e.request.namespace ≡ service_account_namespace user.username)
                  × (service_account_namespace user.username == "" ≡ false)))
      → v ≡ t
      → Authorized expired (authorize kubernetes) route e v f u
      → Admitted security route header c.request s f u
  admit security route header c d e f s t v u
        (token, user, carried, identified, in_time, after, known, same) name scope still
        (user', permissions, listed, known', granted, request, kept) =
      let one : user' ≡ user = let k = (scope user known).0 in cc in
      record {
        user = user;
        token = token;
        carried = bearer_token-Carries header token carried;
        identified = identified;
        in_time = in_time;
        known = kept ∙ ap some one;
        permissions = permissions;
        listed = listed;
        granted =
            subst
              (λ x.
                Granted expired (authorize kubernetes) user (map (attributes_of f) permissions) x u)
              (still ∙ after) (grants e f u v user user' permissions one request granted);
        same_name = ap (λ r. r.name) request ∙ name ∙ ap (λ r. r.name) same;
        scoped =
            λ is. let s = (scope user known).1 is in (ap (λ r. r.namespace) request ∙ s.0, s.1);
      }

  in_tenant :
      (security : Security) (d e : Context) (t u : S)
      → Scoped expired d t e u
      → (user : UserInfo) → d.user ≡ some user
      → (e.user ≡ some user)
        × (security.isolates_tenants ≡ true
            → (e.request.namespace ≡ service_account_namespace user.username)
              × (service_account_namespace user.username == "" ≡ false))
  in_tenant security d e t u (x, of_d, of_e, namespace, full, name, still) user k =
      let one : x ≡ user = cc in
      (
        of_e ∙ ap some one,
        λ on. (
          namespace ∙ ap (λ y. service_account_namespace y.username) one,
          subst (λ y. service_account_namespace y.username == "" ≡ false) one full,
        ),
      )

  -- Behind the identity, with tenants or without.
  isolated-Gate :
      (security : Security) (route : String) (header : List String) (c d : Context) (s t : S)
      (b : Bool)
      → security.isolates_tenants ≡ b
      → Identified expired
          (authenticator kubernetes expired emit security)
          (bearer_token header)
          c
          s
          d
          t
      → Gate expired
          (λ next. isolated kubernetes expired emit b (checks route next))
          d
          t
          (Admitted security route header c.request s)
  unfolding isolated tenant_isolation
  isolated-Gate security route header c d s t false is found =
      weaken (checks route) d t (checks-Gate route d t) (λ f u p.
        admit security route header c d d f s t t u found refl (λ user k. (k, λ on. absurd cc)) refl
          p)
  isolated-Gate security route header c d s t true is found =
      compose expired (tenant_isolation expired) (checks route) d t
        (same_as expired (tenant_isolation expired) (scope_user expired d.user) d t t
          (Scoped expired d t) (λ next. refl) (scope_user-Gate expired d.user d t refl))
        (λ e u scoped. weaken (checks route) e u (checks-Gate route e u) (λ f v p.
          admit security route header c d e f s t u v found scoped.5
            (in_tenant security d e t u scoped) scoped.6 p))

  -- The middleware in front of a route either answers the same whatever the handler is, or runs the
  -- handler once for the identity that the authenticator found, in time, for the bearer token of the
  -- header, with every permission of the route then granted to it in time, for the name and the
  -- namespace that the handler reads, and where tenants are isolated in the namespace of the identity.
  pub guarded-Admitted :
      (security : Security) (route : String) (header : List String) (c : Context) (s : S)
      → Gate expired
          (guarded kubernetes expired emit security route header)
          c
          s
          (Admitted security route header c.request s)
  unfolding guarded authentication checks
  guarded-Admitted security route header c s =
      compose expired _
        (λ next. isolated kubernetes expired emit security.isolates_tenants (checks route next)) c s
        (authenticate_header-Gate expired (authenticator kubernetes expired emit security)
          (bearer_token header) c s)
        (λ d t found.
          isolated-Gate security route header c d s t security.isolates_tenants refl found)
