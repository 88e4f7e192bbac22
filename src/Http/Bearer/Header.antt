-- ===== src/Http/Bearer/Header.antt =====
-- The header that a bearer token of internal/api/middleware/auth.go is read from.
use kube_task.Base.{
  String, true, Option, none, some, List, [], ◌∷◌, ◌++◌, map, nat_eq, Bool-cases, Char, code, chars,
  of_list, cut, cut-eq-some, All, ◌≡◌, refl, sym, ap, ◌∙◌, arith, inl, inr,
}
use kube_task.Http.Bearer.{
  lower, equal_fold, trim_left, trim_right, token_of, bearer_parts, bearer_token,
}

abbrev pub blank : Char
blank = " "

-- The header has one value, which is the word Bearer in any letters, a blank, more blanks perhaps,
-- and then the token to the end.
pub record Carries (header : List String) (token : String) : Type 0 where
  pub value : String
  pub alone : header ≡ value ∷ []
  pub scheme : List Char
  pub is_bearer : map (λ c. lower (code c)) scheme ≡ map code (chars "bearer")
  pub blanks : List Char
  pub are_blank : All (λ c. code c ≡ 32) blanks
  pub whole : chars value ≡ scheme ++ blank ∷ (blanks ++ chars token)

equal_fold-map :
    (cs ds : List Char)
    → equal_fold cs ds ≡ true
    → map (λ c. lower (code c)) cs ≡ map (λ c. lower (code c)) ds
unfolding equal_fold
equal_fold-map [] [] h = refl
equal_fold-map [] (d ∷ ds) h = absurd cc
equal_fold-map (c ∷ cs) [] h = absurd cc
equal_fold-map (c ∷ cs) (d ∷ ds) h = ground (arith, equal_fold-map cs ds)

lower_bearer : map (λ c. lower (code c)) (chars "Bearer") ≡ map code (chars "bearer")
unfolding chars
lower_bearer = refl

chars-of_list : (cs : List Char) → chars (of_list cs) ≡ cs
unfolding chars
chars-of_list [] = refl
chars-of_list (c ∷ cs) = ap (λ l. c ∷ l) (chars-of_list cs)

-- What was trimmed on the left.
trim_left-blanks :
    (cs : List Char)
    → (blanks : List Char) × All (λ c. code c ≡ 32) blanks × (cs ≡ blanks ++ trim_left 32 cs)
unfolding trim_left
trim_left-blanks [] = ([], tt, refl)
trim_left-blanks (c ∷ cs) = elim (Bool-cases (nat_eq (code c) 32)) [
  | inl is ↦
      let (blanks, are, h) = trim_left-blanks cs in
      (c ∷ blanks, (ground (arith, is), are), rw is (ap (λ l. c ∷ l) h))
  | inr isnt ↦ ([], tt, rw isnt refl)
]

token_of-chars :
    (cs trimmed : List Char) (token : String) → token_of cs trimmed ≡ some token → chars token ≡ cs
token_of-chars cs [] token h = absurd cc
token_of-chars cs (d ∷ ds) token h =
    let one : of_list cs ≡ token = ground (arith, h) in ap chars (sym one) ∙ chars-of_list cs

bearer_parts-Carries :
    (value token : String) (o : Option (List Char × List Char))
    → cut 32 (chars value) ≡ o
    → bearer_parts o ≡ some token
    → Carries (value ∷ []) token
bearer_parts-Carries value token none c h = absurd cc
bearer_parts-Carries value token (some (scheme, rest)) c h =
    elim (Bool-cases (equal_fold scheme (chars "Bearer"))) [
      | inl is ↦
          let (blanks, are, k) = trim_left-blanks rest in
          let same =
            token_of-chars (trim_left 32 rest) (trim_right 61 (trim_left 32 rest)) token
              (rw is at h) in
          record {
            value = value;
            alone = refl;
            scheme = scheme;
            is_bearer = equal_fold-map scheme (chars "Bearer") is ∙ lower_bearer;
            blanks = blanks;
            are_blank = are;
            whole =
                cut-eq-some blank (chars value) scheme rest c
                ∙ ap (λ l. scheme ++ blank ∷ l) (k ∙ ap (λ l. blanks ++ l) (sym same));
          }
      | inr isnt ↦ absurd (let e = rw isnt at h in cc)
    ]

-- A token is read only from such a header.
pub bearer_token-Carries :
    (header : List String) (token : String)
    → bearer_token header ≡ some token
    → Carries header token
unfolding bearer_token
bearer_token-Carries [] token h = absurd cc
bearer_token-Carries (value ∷ []) token h = bearer_parts-Carries value token _ refl h
bearer_token-Carries (value ∷ x ∷ xs) token h = absurd cc
