-- ===== src/Client/Dir/Trimmed.antt =====
-- TrimSpace leaves a printed number alone.
use dateilager.Prelude.{
  ℕ, zero, suc, ◌≡◌, refl, ap, ◌∙◌, Bool, true, false, not, none, List, [], ◌∷◌, ◌++◌, map, ℤ,
  Bytes, all, find, has_prefix, length, arith,
}
use dateilager.Decimal.{format_int, format_int-decimal, is_decimal, all-append}
use dateilager.Client.Dir.{reverse, trim_left, trim_space, spaces}

reverse-append : {A : Type 0} (xs : List A) (x : A) → reverse (xs ++ x ∷ []) ≡ x ∷ reverse xs
unfolding reverse
reverse-append [] x = refl
reverse-append (y ∷ xs) x = ap (λ zs. zs ++ y ∷ []) (reverse-append xs x)

reverse-reverse : {A : Type 0} (xs : List A) → reverse (reverse xs) ≡ xs
unfolding reverse
reverse-reverse [] = refl
reverse-reverse (x ∷ xs) = reverse-append (reverse xs) x ∙ ap (λ zs. x ∷ zs) (reverse-reverse xs)

all-reverse : (p : ℕ → Bool) (xs : Bytes) → all p xs ≡ true → all p (reverse xs) ≡ true
unfolding reverse all
all-reverse p [] h = refl
all-reverse p (x ∷ xs) h =
    all-append p (reverse xs) (x ∷ []) (all-reverse p xs (ground arith)) (ground arith)

abbrev is_blank : Bytes → Bool
is_blank [] = false
is_blank (c ∷ _) = not (is_decimal c)

find-blank :
    (text : Bytes) (blanks : List Bytes)
    → all is_decimal text ≡ true
    → all is_blank blanks ≡ true
    → find (has_prefix text) blanks ≡ none
unfolding find has_prefix all
find-blank text [] d a = refl
find-blank text ([] ∷ blanks) d a = cc
find-blank [] ((b ∷ blank) ∷ blanks) d a = find-blank [] blanks d (ground arith)
find-blank (c ∷ text) ((b ∷ blank) ∷ blanks) d a =
    let rest = find-blank (c ∷ text) blanks d (ground arith) in ground (arith, rest)

trim_left-decimal :
    (blanks : List Bytes) (fuel : ℕ) (text : Bytes)
    → all is_blank blanks ≡ true
    → all is_decimal text ≡ true
    → trim_left blanks fuel text ≡ text
unfolding trim_left
trim_left-decimal blanks zero text a d = refl
trim_left-decimal blanks (suc fuel) text a d = rw (find-blank text blanks d a, trim_left) refl

pub trim_space-format_int : (v : ℤ) → trim_space (format_int v) ≡ format_int v
unfolding trim_space all reverse
trim_space-format_int v =
    let d = format_int-decimal v in
    let left = trim_left-decimal spaces (length (format_int v)) (format_int v) refl d in
    rw left (
      ap reverse (
        trim_left-decimal (map reverse spaces) (length (format_int v)) (reverse (format_int v)) refl
          (all-reverse is_decimal (format_int v) d))
      ∙ reverse-reverse (format_int v))
