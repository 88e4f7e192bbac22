-- ===== src/Http/Bearer.antt =====
-- The bearer token of internal/api/middleware/auth.go.
pub mod Header
use kube_task.Base.{
  ℕ, ◌+◌, String, Bool, true, false, ◌&&◌, ◌||◌, Option, none, some, List, [], ◌∷◌, if◌then◌else◌,
  nat_eq, leb, Char, code, chars, of_list, cut, all,
}

-- The small letter of an ASCII letter.
abbrev pub lower : ℕ → ℕ
lower n = if leb 65 n && leb n 90 then n + 32 else n

unfoldable pub equal_fold : List Char → List Char → Bool
equal_fold [] [] = true
equal_fold (c ∷ cs) (d ∷ ds) = nat_eq (lower (code c)) (lower (code d)) && equal_fold cs ds
equal_fold _ _ = false

unfoldable pub trim_left : ℕ → List Char → List Char
trim_left n [] = []
trim_left n (c ∷ cs) = let rest = trim_left n cs in if nat_eq (code c) n then rest else c ∷ cs

-- `strings.TrimRight` by one character.
unfoldable pub trim_right : ℕ → List Char → List Char
trim_right n [] = []
trim_right n (c ∷ cs) = elim (trim_right n cs) [
  | [] ↦ if nat_eq (code c) n then [] else c ∷ []
  | d ∷ ds ↦ c ∷ d ∷ ds
]

-- A character of the b64token of RFC 6750: a letter, a digit or one of `-._~+/`.
abbrev pub is_token_code : ℕ → Bool
is_token_code n =
    (leb 97 n && leb n 122)
    || ((leb 65 n && leb n 90)
        || ((leb 48 n && leb n 57)
            || (nat_eq n 45
                || (nat_eq n 46
                    || (nat_eq n 95 || (nat_eq n 126 || (nat_eq n 43 || nat_eq n 47)))))))

abbrev pub token_of : List Char → List Char → Option String
token_of token [] = none
token_of token (c ∷ cs) =
    if all (λ x. is_token_code (code x)) (c ∷ cs) then some (of_list token) else none

abbrev pub bearer_parts : Option (List Char × List Char) → Option String
bearer_parts none = none
bearer_parts (some (scheme, rest)) =
    let token = trim_left 32 rest in
    if equal_fold scheme (chars "Bearer") then token_of token (trim_right 61 token) else none

-- The values of the header `Authorization`.
unfoldable pub bearer_token : List String → Option String
unfolding chars equal_fold trim_left trim_right
bearer_token (value ∷ []) = bearer_parts (cut 32 (chars value))
bearer_token _ = none
