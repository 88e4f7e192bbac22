-- ===== src/Tenant/Accounts.antt =====
-- The identities of internal/tenant/tenant.go.
use kube_task.Base.{
  String, false, ◌++◌, ◌∷◌, [], List, chars, chars-append, append-nil, of_list-chars, cut,
  cut_prefix, cut-append, cut_prefix-append, contains, concat, some, ◌≡◌, refl, ap, ◌∙◌,
}
use kube_task.Tenant.{
  is_nil, account_namespace, prefixed_namespace, service_account_namespace, service_account_name,
}

chars-concat :
    (x : String) (xs : List String) → chars (concat (x ∷ xs)) ≡ chars x ++ chars (concat xs)
unfolding concat
chars-concat x xs = chars-append x (concat xs)

chars-concat_empty : chars (concat []) ≡ []
unfolding concat chars
chars-concat_empty = refl

-- The characters of a name as Kubernetes writes it.
chars-service_account_name :
    (namespace name : String)
    → chars (service_account_name namespace name)
      ≡ chars "system:serviceaccount:" ++ (chars namespace ++ (chars ":" ++ chars name))
unfolding service_account_name
chars-service_account_name namespace name =
    chars-concat "system:serviceaccount:" (namespace ∷ ":" ∷ name ∷ [])
    ∙ ap (λ cs. chars "system:serviceaccount:" ++ cs)
        (chars-concat namespace (":" ∷ name ∷ [])
          ∙ ap (λ cs. chars namespace ++ cs)
              (chars-concat ":" (name ∷ [])
                ∙ ap (λ cs. chars ":" ++ cs)
                    (chars-concat name []
                      ∙ ap (λ cs. chars name ++ cs) chars-concat_empty
                      ∙ append-nil (chars name))))

cut-colon :
    (namespace name : String)
    → contains 58 (chars namespace) ≡ false
    → cut 58 (chars namespace ++ (chars ":" ++ chars name)) ≡ some (chars namespace, chars name)
unfolding chars
cut-colon namespace name h = cut-append 58 _ (chars namespace) (chars name) refl h

-- The namespace read from a ServiceAccount's username is the account's, where neither the namespace
-- nor the name has a colon and the name is not empty.
pub service_account_namespace-service_account_name :
    (namespace name : String)
    → contains 58 (chars namespace) ≡ false
    → contains 58 (chars name) ≡ false
    → is_nil (chars name) ≡ false
    → service_account_namespace (service_account_name namespace name) ≡ namespace
unfolding service_account_namespace prefixed_namespace account_namespace
service_account_namespace-service_account_name namespace name h k n =
    ap (λ cs. prefixed_namespace (cut_prefix (chars "system:serviceaccount:") cs))
      (chars-service_account_name namespace name)
    ∙ ap prefixed_namespace (
        cut_prefix-append (chars "system:serviceaccount:")
          (chars namespace ++ (chars ":" ++ chars name)))
    ∙ ap account_namespace (cut-colon namespace name h)
    ∙ rw (n, k, of_list-chars namespace) refl
