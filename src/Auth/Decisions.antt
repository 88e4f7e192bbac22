-- ===== src/Auth/Decisions.antt =====
-- The decisions of internal/auth.
use kube_task.Base.{
  eq-path, String, Bool, true, false, not, ◌||◌, Option, none, some, List, [], ◌∷◌, ◌==◌,
  if◌then◌else◌, ◌≡◌, refl, sym, ap, ◌∙◌, arith, chars, is_blank,
}
use text.Mathlib.Text.{starts_with}
use kube_task.Kube.{Reply, done, failed, Error}
use kube_task.Tenant.{service_account_name}
use kube_task.Auth.{
  api_key_prefix, AuthError, Result, ok, err, UserInfo, ApiKeyBinding, AccessReview, Review,
  Kubernetes, ResourceAttributes, access_decision, authorize, find_binding, bound_user,
  bound_identity, authenticate_binding, authenticate_found, authenticate_among, authenticate_key,
}

-- The review said yes, and not no as well.
abbrev pub Allowed : Review AccessReview → Type 0
Allowed review =
    (r : AccessReview) × (review ≡ Review.reviewed r) × (r.allowed ≡ true) × (r.denied ≡ false)

access_decision-Allowed :
    (review : Review AccessReview) → access_decision review ≡ none → Allowed review
unfolding access_decision
access_decision-Allowed Review.review_error h = absurd cc
access_decision-Allowed Review.nil_review h = absurd cc
access_decision-Allowed (Review.reviewed r) h = (r, refl, ground arith, ground arith)

find_binding-sha256 :
    (encoded : String) (bs : List ApiKeyBinding) (b : ApiKeyBinding)
    → find_binding encoded bs ≡ some b
    → (b.sha256 == encoded) ≡ true
unfolding find_binding
find_binding-sha256 encoded [] b h = absurd cc
find_binding-sha256 encoded (a ∷ bs) b h = ground (arith, find_binding-sha256 encoded bs b)

module _ {S : Type 0} (kubernetes : Kubernetes S) where
  -- An access that is granted was asked for.
  asked :
      (blank lacking : Bool) (review : Option AuthError × S) (s : S)
      → (if◌then◌else◌ {A = Option AuthError × S} blank
          (some AuthError.unauthenticated, s)
          (if lacking then (some AuthError.unavailable, s) else review)).0
        ≡ none
      → review.0 ≡ none
  asked true lacking review s h = absurd cc
  asked false true review s h = absurd cc
  asked false false review s h = h

  -- An access is granted only where the review of this access says that it is allowed and not denied.
  pub authorize-Allowed :
      (user : UserInfo) (a : ResourceAttributes) (s : S)
      → (authorize kubernetes user a s).0 ≡ none
      → Allowed (kubernetes.access_review user a s).0
  unfolding authorize
  authorize-Allowed user a s h =
      access_decision-Allowed (kubernetes.access_review user a s).0
        (asked (is_blank (chars user.username)) (a.resource == "" || a.verb == "") _ s h)

  -- The identity is the ServiceAccount of the binding `b`, which exists with the UID bound.
  pub record Bound (b : ApiKeyBinding) (s : S) (user : UserInfo) : Type 0 where
    pub same_uid : (kubernetes.account_uid b.namespace b.service_account s).0 ≡ done b.uid
    pub username : user.username ≡ service_account_name b.namespace b.service_account
    pub uid : user.uid ≡ b.uid

  passes_test :
      (test : Bool) (e : AuthError) (x user : UserInfo)
      → (if not test then err e else ok x) ≡ ok user
      → (test ≡ true) × (x ≡ user)
  passes_test true e x user h = (refl, cc)
  passes_test false e x user h = absurd cc

  bound_identity-Bound :
      (b : ApiKeyBinding) (s : S) (account : Reply String) (user : UserInfo)
      → (kubernetes.account_uid b.namespace b.service_account s).0 ≡ account
      → bound_identity b account ≡ ok user
      → Bound b s user
  unfolding bound_identity bound_user
  bound_identity-Bound b s (failed Error.not_found) user k h = absurd cc
  bound_identity-Bound b s (failed Error.already_exists) user k h = absurd cc
  bound_identity-Bound b s (failed (Error.name_conflict text)) user k h = absurd cc
  bound_identity-Bound b s (failed (Error.other text)) user k h = absurd cc
  bound_identity-Bound b s (done uid) user k h =
      let (is, same) =
        passes_test (uid == b.uid) AuthError.unauthenticated (bound_user b uid) user h in
      let e = eq-path uid b.uid is in
      record {
        same_uid = k ∙ ap done e;
        username = sym (ap (λ u. u.username) same);
        uid = sym (ap (λ u. u.uid) same) ∙ e;
      }

  -- A binding that lacks a field authenticates nobody.
  complete :
      (lacks : Bool) (s : S) (r : Result UserInfo × S) (user : UserInfo)
      → (if lacks then (err AuthError.unavailable, s) else r).0 ≡ ok user
      → r.0 ≡ ok user
  complete true s r user h = absurd cc
  complete false s r user h = h

  authenticate_binding-Bound :
      (b : ApiKeyBinding) (s : S) (user : UserInfo)
      → (authenticate_binding kubernetes b s).0 ≡ ok user
      → Bound b s user
  unfolding authenticate_binding
  authenticate_binding-Bound b s user h = bound_identity-Bound b s _ user refl (
      complete (b.id == "" || (b.namespace == "" || (b.service_account == "" || b.uid == ""))) s
        (
          bound_identity b (kubernetes.account_uid b.namespace b.service_account s).0,
          (kubernetes.account_uid b.namespace b.service_account s).1,
        )
        user h)

  authenticate_found-Bound :
      (f : Option ApiKeyBinding) (s : S) (user : UserInfo)
      → (authenticate_found kubernetes f s).0 ≡ ok user
      → (b : ApiKeyBinding) × (f ≡ some b) × Bound b s user
  unfolding authenticate_found
  authenticate_found-Bound none s user h = absurd cc
  authenticate_found-Bound (some b) s user h = (b, refl, authenticate_binding-Bound b s user h)

  -- The identity of an API key: a binding of the file has its digest.
  abbrev pub KeyOf : String → S → UserInfo → Type 0
  KeyOf token s user =
      (bs : List ApiKeyBinding) × (b : ApiKeyBinding) × ((kubernetes.bindings s).0 ≡ some bs)
      × (find_binding (kubernetes.digest token) bs ≡ some b)
      × ((b.sha256 == kubernetes.digest token) ≡ true)
      × Bound b (kubernetes.bindings s).1 user

  authenticate_among-Bound :
      (token : String) (bindings : Option (List ApiKeyBinding)) (s : S) (user : UserInfo)
      → (kubernetes.bindings s).0 ≡ bindings
      → (authenticate_among kubernetes token bindings (kubernetes.bindings s).1).0 ≡ ok user
      → KeyOf token s user
  unfolding authenticate_among
  authenticate_among-Bound token none s user k h = absurd cc
  authenticate_among-Bound token (some bs) s user k h =
      let (b, found, is) =
        authenticate_found-Bound (find_binding (kubernetes.digest token) bs) _ user h in
      (bs, b, k, found, find_binding-sha256 (kubernetes.digest token) bs b found, is)

  -- A token with the prefix of the API keys is accepted only if a binding of the file has its digest,
  -- and as the ServiceAccount of this binding, which exists with the UID that is bound.
  pub authenticate_key-KeyOf :
      (audience token : String) (s : S) (user : UserInfo)
      → starts_with token api_key_prefix ≡ true
      → (authenticate_key kubernetes audience token s).0 ≡ ok user
      → KeyOf token s user
  unfolding authenticate_key
  authenticate_key-KeyOf audience token s user key h =
      authenticate_among-Bound token (kubernetes.bindings s).0 s user refl
        (is_key (starts_with token api_key_prefix) _ _ user key h)
    where
      is_key :
          (b : Bool) (x y : Result UserInfo × S) (user : UserInfo)
          → b ≡ true
          → (if not b then x else y).0 ≡ ok user
          → y.0 ≡ ok user
      is_key true x y user k h = h
      is_key false x y user k h = absurd cc
