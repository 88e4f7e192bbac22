-- ===== src/Http/Router/Guard.antt =====
-- The checks in front of the routes of internal/api/router.go.
pub mod Admission
use kube_task.Base.{
  ℕ, String, Bool, true, false, Bool-cases, Option, none, some, List, [], ◌∷◌, ◌==◌, if◌then◌else◌,
  lookup, map, ◌≡◌, refl, sym, ap, ◌∙◌, inl, inr, ◌⊎◌, arith,
}
use kube_task.Auth.{
  AuthError, Result, ok, err, UserInfo, ResourceAttributes, Kubernetes, authenticate_token,
  authenticate_key, authorize,
}
use kube_task.Tenant.{service_account_namespace}
use kube_task.Http.Request.{Request, Response}
use kube_task.Http.Bearer.{bearer_token}
use kube_task.Http.Middleware.{
  Context, Next, Permission, reject, refusal, route_permissions, attributes_of, accept_identity,
  accept_in_time, authenticate_header, authentication, scope_user, tenant_isolation, proceed,
  check_access, check_user, check_resource_access, require, authorization, audit_operations,
}
use kube_task.Http.Audit.{AuditEvent, audited, audit}
use kube_task.Http.Router.{Security, guarded}

module _ {S : Type 0} (expired : S → Bool × S) where
  -- A check in front of a handler, at a request: either it answers whatever the handler is, or the
  -- handler runs where `P` holds, with something done afterwards.
  pub data Gate (guard : Next expired → Next expired) (c : Context) (s : S)
      (P : Context → S → Type 0) : Type 0 where
    blocked :
        (r : Response) (t : S)
        → ((next : Next expired) → guard next c s ≡ (r, t))
        → Gate guard c s P
    passed :
        (d : Context) (t : S) (after : Response × S → Response × S)
        → P d t
        → ((next : Next expired) → guard next c s ≡ after (next d t))
        → Gate guard c s P

  behind :
      (guard inner : Next expired → Next expired) (c d : Context) (s t : S)
      (after : Response × S → Response × S) {P : Context → S → Type 0}
      → ((next : Next expired) → guard next c s ≡ after (next d t))
      → Gate inner d t P
      → Gate (λ next. guard (inner next)) c s P
  behind guard inner c d s t after same (Gate.blocked r u h) =
      Gate.blocked (after (r, u)).0 (after (r, u)).1 (λ next. same (inner next) ∙ ap after (h next))
  behind guard inner c d s t after same (Gate.passed e u more p h) =
      Gate.passed e u (λ x. after (more x)) p (λ next. same (inner next) ∙ ap after (h next))

  -- One check behind another.
  compose :
      (guard inner : Next expired → Next expired) (c : Context) (s : S) {P Q : Context → S → Type 0}
      → Gate guard c s P
      → ((d : Context) (t : S) → P d t → Gate inner d t Q)
      → Gate (λ next. guard (inner next)) c s Q
  compose guard inner c s (Gate.blocked r t h) more = Gate.blocked r t (λ next. h (inner next))
  compose guard inner c s (Gate.passed d t after p h) more =
      behind guard inner c d s t after h (more d t p)

  -- A check that answers as another one does.
  same_as :
      (guard inner : Next expired → Next expired) (c : Context) (s t : S) (P : Context → S → Type 0)
      → ((next : Next expired) → guard next c s ≡ inner next c t)
      → Gate inner c t P
      → Gate guard c s P
  same_as guard inner c s t P same (Gate.blocked r u h) =
      Gate.blocked r u (λ next. same next ∙ h next)
  same_as guard inner c s t P same (Gate.passed d u after p h) =
      Gate.passed d u after p (λ next. same next ∙ h next)

  -- The identity of the request is the one that the authenticator found, in time, for the token of
  -- the header, asked in the state in which the request came; `t` is the state after that.
  abbrev Identified :
      (String → S → Result UserInfo × S) → Option String → Context → S → Context → S → Type 0
  Identified authenticate header c s d t =
      (token : String) × (user : UserInfo) × (header ≡ some token)
      × ((authenticate token s).0 ≡ ok user)
      × ((expired (authenticate token s).1).0 ≡ false)
      × (t ≡ (expired (authenticate token s).1).1)
      × (d.user ≡ some user)
      × (d.request ≡ c.request)

  accept_identity-Gate :
      (c : Context) (t : S) (result : Result UserInfo) (P : Context → S → Type 0)
      → ((user : UserInfo) → result ≡ ok user → P (record c { user = some user }) t)
      → Gate (accept_identity expired result) c t P
  unfolding accept_identity
  accept_identity-Gate c t (ok user) P more =
      Gate.passed (record c { user = some user }) t (λ x. x) (more user refl) (λ next. refl)
  accept_identity-Gate c t (err AuthError.unauthenticated) P more = Gate.blocked _ t (λ next. refl)
  accept_identity-Gate c t (err AuthError.forbidden) P more = Gate.blocked _ t (λ next. refl)
  accept_identity-Gate c t (err AuthError.unavailable) P more = Gate.blocked _ t (λ next. refl)

  accept_in_time-Gate :
      (c : Context) (t : S) (late : Bool) (result : Result UserInfo) (P : Context → S → Type 0)
      → ((user : UserInfo) → late ≡ false → result ≡ ok user → P (record c { user = some user }) t)
      → Gate (accept_in_time expired late result) c t P
  unfolding accept_in_time
  accept_in_time-Gate c t true result P more = Gate.blocked _ t (λ next. refl)
  accept_in_time-Gate c t false result P more =
      accept_identity-Gate c t result P (λ user is. more user refl is)

  authenticate_header-Gate :
      (authenticate : String → S → Result UserInfo × S) (header : Option String) (c : Context)
      (s : S)
      → Gate
          (authenticate_header expired authenticate header)
          c
          s
          (Identified authenticate header c s)
  unfolding authenticate_header
  authenticate_header-Gate authenticate none c s = Gate.blocked _ s (λ next. refl)
  authenticate_header-Gate authenticate (some token) c s =
      let found = authenticate token s in
      let late = expired found.1 in
      same_as _ (accept_in_time expired late.0 found.0) c s late.1
        (Identified authenticate (some token) c s) (λ next. refl)
        (accept_in_time-Gate c late.1 late.0 found.0 (Identified authenticate (some token) c s)
          (λ user in_time is. (token, user, refl, is, in_time, refl, refl, refl)))

  abbrev in_namespace : String → Context → Context
  in_namespace namespace c = record c { request = record (c.request) { namespace = namespace } }

  -- The request is in the namespace of the identity's ServiceAccount, and nothing else happened.
  abbrev Scoped : Context → S → Context → S → Type 0
  Scoped c s d t =
      (user : UserInfo) × (c.user ≡ some user)
      × (d.user ≡ some user)
      × (d.request.namespace ≡ service_account_namespace user.username)
      × (service_account_namespace user.username == "" ≡ false)
      × (d.request.name ≡ c.request.name)
      × (t ≡ s)

  scope_user-Gate :
      (user : Option UserInfo) (c : Context) (s : S)
      → c.user ≡ user
      → Gate (scope_user expired user) c s (Scoped c s)
  unfolding scope_user
  scope_user-Gate none c s h = Gate.blocked _ s (λ next. refl)
  scope_user-Gate (some user) c s h =
      elim (Bool-cases (service_account_namespace user.username == "")) [
        | inl is ↦ Gate.blocked (reject 401) s (λ next. rw is)
        | inr isnt ↦
            Gate.passed (in_namespace (service_account_namespace user.username) c) s (λ x. x)
              (user, h, h, refl, isnt, refl, refl) (λ next. rw isnt)
      ]

  module _ (grant : UserInfo → ResourceAttributes → S → Option AuthError × S) where
    -- Every access asked for was granted in time, one after the other.
    pub data Granted (user : UserInfo) : List ResourceAttributes → S → S → Type 0 where
      all_granted : (s : S) → Granted user [] s s
      and_granted :
          (a : ResourceAttributes) (rest : List ResourceAttributes) (s t : S)
          → (grant user a s).0 ≡ none
          → (expired (grant user a s).1).0 ≡ false
          → Granted user rest (expired (grant user a s).1).1 t
          → Granted user (a ∷ rest) s t

    refusal-none :
        (late : Bool) (e : Option AuthError)
        → refusal expired grant late e ≡ none
        → (e ≡ none) × (late ≡ false)
    refusal-none late e h = ground arith

    -- Where the checks of an access end.
    pub data Checked (user : UserInfo) (attributes : List ResourceAttributes) (s : S) : Type 0 where
      refused :
          (r : Response) (t : S)
          → ((next : S → Response × S) → check_access expired grant user attributes next s ≡ (r, t))
          → Checked user attributes s
      granted :
          (t : S)
          → Granted user attributes s t
          → ((next : S → Response × S) → check_access expired grant user attributes next s ≡ next t)
          → Checked user attributes s

    refused_first :
        (user : UserInfo) (a : ResourceAttributes) (rest : List ResourceAttributes) (s : S)
        (f : Option ℕ)
        → let asked = grant user a s in
          let late = expired asked.1 in
          refusal expired grant late.0 asked.0 ≡ f
          → Checked user rest late.1
          → Checked user (a ∷ rest) s
    unfolding check_access proceed
    refused_first user a rest s (some status) h c =
        Checked.refused (reject status) (expired (grant user a s).1).1 (λ next. rw h)
    refused_first user a rest s none h (Checked.refused r t k) =
        Checked.refused r t (λ next. rw h (k next))
    refused_first user a rest s none h (Checked.granted t g k) =
        Checked.granted t
          (let passed = refusal-none _ _ h in and_granted a rest s t passed.0 passed.1 g)
          (λ next. rw h (k next))

    check_access-Checked :
        (user : UserInfo) (attributes : List ResourceAttributes) (s : S) → Checked user attributes s
    unfolding check_access
    check_access-Checked user [] s = Checked.granted s (all_granted s) (λ next. refl)
    check_access-Checked user (a ∷ rest) s =
        refused_first user a rest s _ refl (check_access-Checked user rest _)

    -- The route is in the table and each of its permissions was granted to the identity.
    abbrev Authorized : (route : String) → Context → S → Context → S → Type 0
    Authorized route c s d t =
        (user : UserInfo) × (permissions : List Permission) × (lookup route route_permissions
          ≡ some permissions)
        × (c.user ≡ some user)
        × Granted user (map (attributes_of c) permissions) s t
        × (d.request ≡ c.request)
        × (d.user ≡ some user)

    checked-Gate :
        (route : String) (permissions : List Permission) (user : UserInfo) (c : Context) (s : S)
        → lookup route route_permissions ≡ some permissions
        → c.user ≡ some user
        → Checked user (map (attributes_of c) permissions) s
        → Gate
            (λ next d t.
              check_access expired grant user
                (map (attributes_of c) permissions)
                (next (record d { authorizes = true }))
                t)
            c
            s
            (Authorized route c s)
    checked-Gate route permissions user c s h k (Checked.refused r t same) =
        Gate.blocked r t (λ next. same _)
    checked-Gate route permissions user c s h k (Checked.granted t g same) =
        Gate.passed (record c { authorizes = true }) t (λ x. x)
          (user, permissions, h, k, g, refl, k) (λ next. same _)

    require-Gate :
        (route : String) (listed : Option (List Permission)) (user : Option UserInfo) (c : Context)
        (s : S)
        → lookup route route_permissions ≡ listed
        → c.user ≡ user
        → Gate (require expired grant listed) c s (Authorized route c s)
    unfolding require check_resource_access check_user
    require-Gate route none user c s h k = Gate.blocked (reject 503) s (λ next. refl)
    require-Gate route (some permissions) none c s h k = Gate.blocked (reject 401) s (λ next. rw k)
    require-Gate route (some permissions) (some user) c s h k =
        same_as _ _ c s s (Authorized route c s) (λ next. rw k refl)
          (checked-Gate route permissions user c s h k (check_access-Checked user _ s))
