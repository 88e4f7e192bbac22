-- ===== src/Base/Chars.antt =====
-- Texts as lists of characters: `strings.Cut`, `strings.CutPrefix`, `strings.Split` and
-- `strings.TrimSpace` of the standard library, as the code uses them.
use Prim.Native.Nat.{ℕ}
use Prim.Native.Char.{Char, code}
use Prim.Native.String.{String, [] as empty, ◌∷◌ as ◌∷ₛ◌, ◌++◌ as text_append}
use text.Mathlib.TextBridge.{of_list}
use text.Mathlib.TextLemmas.{nil-append, cons-append}
use text.Mathlib.TextEquality.{Char-path}
use mathlib.Core.Path.{◌≡◌, refl, ap, ◌∙◌, subst}
use mathlib.Core.Logic.{inl, inr}
use mathlib.Core.Bool.{Bool, true, false, ◌||◌, ◌&&◌}
use mathlib.Core.Option.{Option, none, some}
use mathlib.Core.List.{List, [], ◌∷◌, ◌++◌}
use native.Mathlib.Omega.{arith}
use kube_task.Base.Tests.{nat_eq, leb, Bool-cases, if◌then◌else◌}

unfoldable pub chars : String → List Char
chars empty = []
chars (c ∷ₛ s) = c ∷ chars s

abbrev push : Char → Option (List Char × List Char) → Option (List Char × List Char)
push c none = none
push c (some (a, b)) = some (c ∷ a, b)

-- Up to the first character with the code `sep`, and what stands behind it.
unfoldable pub cut : ℕ → List Char → Option (List Char × List Char)
cut sep [] = none
cut sep (c ∷ cs) =
    let rest = cut sep cs in if nat_eq (code c) sep then some ([], cs) else push c rest

unfoldable pub contains : ℕ → List Char → Bool
contains sep [] = false
contains sep (c ∷ cs) = nat_eq (code c) sep || contains sep cs

unfoldable pub cut_prefix : List Char → List Char → Option (List Char)
cut_prefix [] cs = some cs
cut_prefix (p ∷ ps) [] = none
cut_prefix (p ∷ ps) (c ∷ cs) = if nat_eq (code p) (code c) then cut_prefix ps cs else none

-- `strings.Split` by one character.
unfoldable pub split : ℕ → List Char → List (List Char)
split sep [] = [] ∷ []
split sep (c ∷ cs) =
    let rest = split sep cs in
    if nat_eq (code c) sep
    then [] ∷ rest
    else elim rest [ [] ↦ (c ∷ []) ∷ [] | part ∷ parts ↦ (c ∷ part) ∷ parts ]

-- `unicode.IsSpace`
abbrev pub is_space : ℕ → Bool
is_space n =
    (leb 9 n && leb n 13)
    || (nat_eq n 32
        || (nat_eq n 133
            || (nat_eq n 160
                || (nat_eq n 5760
                    || ((leb 8192 n && leb n 8202)
                        || (nat_eq n 8232
                            || (nat_eq n 8233
                                || (nat_eq n 8239 || (nat_eq n 8287 || nat_eq n 12288)))))))))

unfoldable pub trim_start : List Char → List Char
trim_start [] = []
trim_start (c ∷ cs) = let rest = trim_start cs in if is_space (code c) then rest else c ∷ cs

unfoldable pub trim_end : List Char → List Char
trim_end [] = []
trim_end (c ∷ cs) = elim (trim_end cs) [
  | [] ↦ if is_space (code c) then [] else c ∷ []
  | d ∷ ds ↦ c ∷ d ∷ ds
]

-- `strings.TrimSpace(s) == ""`
unfoldable pub is_blank : List Char → Bool
is_blank [] = true
is_blank (c ∷ cs) = is_space (code c) && is_blank cs

pub cut-append :
    (sep : ℕ) (c : Char) (xs ys : List Char)
    → code c ≡ sep
    → contains sep xs ≡ false
    → cut sep (xs ++ c ∷ ys) ≡ some (xs, ys)
unfolding cut contains
cut-append sep c [] ys h n = ground arith
cut-append sep c (x ∷ xs) ys h n = ground (arith, cut-append sep c xs ys h)

pub cut_prefix-append : (ps cs : List Char) → cut_prefix ps (ps ++ cs) ≡ some cs
unfolding cut_prefix
cut_prefix-append [] cs = refl
cut_prefix-append (p ∷ ps) cs = ground (arith, cut_prefix-append ps cs)

pub chars-append : (s t : String) → chars (text_append s t) ≡ chars s ++ chars t
unfolding chars
chars-append empty t = ap chars (nil-append t)
chars-append (c ∷ₛ s) t = ap chars (cons-append c s t) ∙ ap (λ cs. c ∷ cs) (chars-append s t)

pub of_list-chars : (s : String) → of_list (chars s) ≡ s
unfolding chars
of_list-chars empty = refl
of_list-chars (c ∷ₛ s) = ap (λ t. c ∷ₛ t) (of_list-chars s)

push-eq-some :
    (c d : Char) (cs a b : List Char) (r : Option (List Char × List Char))
    → ((x y : List Char) → r ≡ some (x, y) → cs ≡ x ++ d ∷ y)
    → push c r ≡ some (a, b)
    → c ∷ cs ≡ a ++ d ∷ b
push-eq-some c d cs a b none rest h = absurd cc
push-eq-some c d cs a b (some (x, y)) rest h =
    let first : c ∷ x ≡ a = cc in
    let second : y ≡ b = cc in
    subst (λ l. c ∷ cs ≡ l ++ d ∷ b) first
      (ap (λ l. c ∷ l) (rest x y refl ∙ ap (λ l. x ++ d ∷ l) second))

-- What was cut, around the separator.
pub cut-eq-some : (d : Char) (cs a b : List Char) → cut (code d) cs ≡ some (a, b) → cs ≡ a ++ d ∷ b
unfolding cut
cut-eq-some d [] a b h = absurd cc
cut-eq-some d (c ∷ cs) a b h = elim (Bool-cases (nat_eq (code c) (code d))) [
  | inl is ↦ ground (arith, Char-path c d, h)
  | inr isnt ↦ push-eq-some c d cs a b (cut (code d) cs) (cut-eq-some d cs) (ground (arith, h))
]

pub cut_prefix-eq-some : (ps cs rest : List Char) → cut_prefix ps cs ≡ some rest → cs ≡ ps ++ rest
unfolding cut_prefix
cut_prefix-eq-some [] cs rest h = cc
cut_prefix-eq-some (p ∷ ps) [] rest h = absurd cc
cut_prefix-eq-some (p ∷ ps) (c ∷ cs) rest h =
    ground (arith, Char-path p c, cut_prefix-eq-some ps cs rest)
