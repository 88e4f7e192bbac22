-- ===== src/Auth.antt =====
-- internal/auth: who sent a request and what Kubernetes lets him do. The reviews, the binding file,
-- the service accounts and the deadline of a check are parameters over a state.
pub mod Decisions
use kube_task.Base.{
  String, Bool, true, false, not, ◌&&◌, ◌||◌, Option, none, some, List, [], ◌∷◌, ◌==◌,
  if◌then◌else◌, elem, Char, chars, is_blank, split, of_list, concat, map,
}
use text.Mathlib.Text.{starts_with}
use kube_task.Kube.{Reply, done, failed, Error}
use kube_task.Tenant.{service_account_name}

abbrev pub api_key_prefix : String
api_key_prefix = "ktk_"

abbrev pub api_key_id_extra : String
api_key_id_extra = "kubetask.io/api-key-id"

-- The sentinel errors, which wrap what Kubernetes answered; both that say that it could not decide
-- are `unavailable`.
pub data AuthError : Type 0 where
  unauthenticated forbidden unavailable : AuthError

pub data Result (A : Type 0) : Type 0 where
  ok : A → Result A
  err : AuthError → Result A

pub record UserInfo : Type 0 where
  pub username : String
  pub uid : String
  pub groups : List String
  pub extra : List (String × List String)

pub record TokenReview : Type 0 where
  pub error : String
  pub authenticated : Bool
  pub audiences : List String
  pub user : UserInfo

pub record ApiKeyBinding : Type 0 where
  pub id : String
  pub sha256 : String
  pub namespace : String
  pub service_account : String
  pub uid : String

pub record ResourceAttributes : Type 0 where
  pub group : String
  pub version : String
  pub resource : String
  pub subresource : String
  pub verb : String
  pub name : String
  pub namespace : String

pub record AccessReview : Type 0 where
  pub allowed : Bool
  pub denied : Bool
  pub evaluation_error : String

-- An answer of `Create` on a review: an error, a nil review, or the status.
pub data Review (A : Type 0) : Type 0 where
  review_error nil_review : Review A
  reviewed : A → Review A

-- `digest` is the SHA-256 of a text in hexadecimal; `bindings` reads and decodes the file, and is
-- nothing if either fails; `account_uid` gets a ServiceAccount of a namespace.
pub record Kubernetes (S : Type 0) : Type 0 where
  pub token_review : (audience token : String) → S → Review TokenReview × S
  pub access_review : UserInfo → ResourceAttributes → S → Review AccessReview × S
  pub bindings : S → Option (List ApiKeyBinding) × S
  pub account_uid : (namespace name : String) → S → Reply String × S
  pub digest : String → String

-- `system:serviceaccount:<namespace>:<name>`, in the parts between the colons.
abbrev pub is_account_parts : List String → Bool
is_account_parts (system ∷ account ∷ namespace ∷ name ∷ []) =
    system == "system"
    && (account == "serviceaccount" && (not (namespace == "") && not (name == "")))
is_account_parts _ = false

unfoldable pub is_account : String → Bool
unfolding chars
is_account username = is_account_parts (map of_list (split 58 (chars username)))

unfoldable pub review_identity : (audience : String) → Review TokenReview → Result UserInfo
unfolding is_account
review_identity audience Review.review_error = err AuthError.unavailable
review_identity audience Review.nil_review = err AuthError.unavailable
review_identity audience (Review.reviewed r) =
    if not (r.error == "") || (not r.authenticated || not (elem audience r.audiences))
    then err AuthError.unauthenticated
    else if is_account r.user.username
    then ok r.user
    else err AuthError.unauthenticated

unfoldable pub find_binding : String → List ApiKeyBinding → Option ApiKeyBinding
find_binding encoded [] = none
find_binding encoded (b ∷ bs) = if b.sha256 == encoded then some b else find_binding encoded bs

unfoldable pub bound_user : ApiKeyBinding → (uid : String) → UserInfo
unfolding service_account_name concat
bound_user b uid = record {
  username = service_account_name b.namespace b.service_account;
  uid = uid;
  groups =
      "system:serviceaccounts"
      ∷ concat ("system:serviceaccounts:" ∷ b.namespace ∷ [])
      ∷ "system:authenticated"
      ∷ [];
  extra = (api_key_id_extra, b.id ∷ []) ∷ [];
}

-- What the ServiceAccount that Kubernetes has says of the binding.
unfoldable pub bound_identity : ApiKeyBinding → Reply String → Result UserInfo
unfolding bound_user
bound_identity b (failed Error.not_found) = err AuthError.unauthenticated
bound_identity b (failed e) = err AuthError.unavailable
bound_identity b (done uid) =
    if not (uid == b.uid) then err AuthError.unauthenticated else ok (bound_user b uid)

-- What `Authorize` makes of a review.
unfoldable pub access_decision : Review AccessReview → Option AuthError
access_decision Review.review_error = some AuthError.unavailable
access_decision Review.nil_review = some AuthError.unavailable
access_decision (Review.reviewed r) =
    if r.allowed && r.denied
    then some AuthError.unavailable
    else if r.denied
    then some AuthError.forbidden
    else if r.allowed
    then none
    else if not (r.evaluation_error == "")
    then some AuthError.unavailable
    else some AuthError.forbidden

module _ {S : Type 0} (kubernetes : Kubernetes S) where
  unfoldable pub authenticate_token : (audience token : String) → S → Result UserInfo × S
  unfolding chars is_blank review_identity
  authenticate_token audience token s =
      if is_blank (chars token)
      then (err AuthError.unauthenticated, s)
      else let (review, s') = kubernetes.token_review audience token s in
        (review_identity audience review, s')

  unfoldable pub authenticate_binding : ApiKeyBinding → S → Result UserInfo × S
  unfolding bound_identity
  authenticate_binding b s =
      if b.id == "" || (b.namespace == "" || (b.service_account == "" || b.uid == ""))
      then (err AuthError.unavailable, s)
      else let (account, s') = kubernetes.account_uid b.namespace b.service_account s in
        (bound_identity b account, s')

  unfoldable pub authenticate_found : Option ApiKeyBinding → S → Result UserInfo × S
  unfolding authenticate_binding
  authenticate_found none s = (err AuthError.unauthenticated, s)
  authenticate_found (some b) s = authenticate_binding b s

  -- The first binding with the digest of the key, among those that were read.
  unfoldable pub authenticate_among :
      (token : String) → Option (List ApiKeyBinding) → S → Result UserInfo × S
  unfolding authenticate_found find_binding
  authenticate_among token none s = (err AuthError.unavailable, s)
  authenticate_among token (some bs) s =
      authenticate_found (find_binding (kubernetes.digest token) bs) s

  -- `APIKeyAuthenticator.Authenticate`
  unfoldable pub authenticate_key : (audience token : String) → S → Result UserInfo × S
  unfolding authenticate_token authenticate_among
  authenticate_key audience token s =
      if not (starts_with token api_key_prefix)
      then authenticate_token audience token s
      else let (bindings, s') = kubernetes.bindings s in authenticate_among token bindings s'

  -- `ResourceAuthorizer.Authorize`; no error is an access granted.
  unfoldable pub authorize : UserInfo → ResourceAttributes → S → Option AuthError × S
  unfolding chars is_blank access_decision
  authorize user attributes s =
      if is_blank (chars user.username)
      then (some AuthError.unauthenticated, s)
      else if attributes.resource == "" || attributes.verb == ""
      then (some AuthError.unavailable, s)
      else let (review, s') = kubernetes.access_review user attributes s in
        (access_decision review, s')
