-- ===== src/Db/Like.antt =====
-- The operator LIKE of SQL in the predicates of internal/db/queryBuilder.go and internal/db/cache.go,
-- which append `%` to a text that they do not escape: `%` is any text, `_` any character, and `\`
-- takes the next character as it is.
use dateilager.Prelude.{
  ℕ, ◌≡◌, refl, Bool, true, false, not, ◌&&◌, ◌||◌, [], ◌∷◌, ◌++◌, arith, ◌==◌, if◌then◌else◌,
  Bytes, has_prefix, all, codes, ◌∙◌,
}

abbrev is_empty : Bytes → Bool
is_empty [] = true
is_empty (c ∷ text) = false

-- Some suffix of the text passes.
any_suffix : (Bytes → Bool) → Bytes → Bool
any_suffix p [] = p []
any_suffix p (c ∷ text) = p (c ∷ text) || any_suffix p text

abbrev like_char : ℕ → (Bytes → Bool) → Bytes → Bool
like_char c rest [] = false
like_char c rest (d ∷ text) = d == c && rest text

abbrev like_any : (Bytes → Bool) → Bytes → Bool
like_any rest [] = false
like_any rest (d ∷ text) = rest text

-- One character of the pattern, with the matchers for what follows it, escaped and not.
abbrev like_step : Bool → ℕ → (Bytes → Bool) → (Bytes → Bool) → Bytes → Bool
like_step true c escaped rest text = like_char c rest text
like_step false c escaped rest text =
    if c == b'%'
    then any_suffix rest text
    else if c == b'_'
    then like_any rest text
    else if c == b'\\'
    then escaped text
    else like_char c rest text

-- A pattern that ends in a lone `\`, which the server refuses, is never built.
like_from : Bool → Bytes → Bytes → Bool
unfolding any_suffix
like_from escape [] text = is_empty text
like_from escape (c ∷ pattern) text =
    like_step escape c (like_from true pattern) (like_from false pattern) text

-- text LIKE pattern
unfoldable pub like : Bytes → Bytes → Bool
unfolding like_from
like text pattern = like_from false pattern text

-- fmt.Sprintf("%s%%", path)
abbrev pub like_prefix : Bytes → Bytes
like_prefix path = path ++ b'%' ∷ []

abbrev pub is_plain : ℕ → Bool
is_plain c = not (c == b'%' || c == b'_' || c == b'\\')

any_suffix_empty : (text : Bytes) → any_suffix is_empty text ≡ true
unfolding any_suffix
any_suffix_empty [] = refl
any_suffix_empty (c ∷ text) = any_suffix_empty text

like_step_plain :
    (c : ℕ) (escaped rest : Bytes → Bool) (text : Bytes)
    → is_plain c ≡ true
    → like_step false c escaped rest text ≡ like_char c rest text
like_step_plain c escaped rest text h = ground arith

like_from-like_prefix :
    (path text : Bytes)
    → all is_plain path ≡ true
    → like_from false (like_prefix path) text ≡ has_prefix text path
unfolding like_from has_prefix all
like_from-like_prefix [] text h = any_suffix_empty text
like_from-like_prefix (c ∷ path) [] h =
    like_step_plain c (like_from true (like_prefix path)) (like_from false (like_prefix path)) []
      (ground arith)
like_from-like_prefix (c ∷ path) (d ∷ text) h =
    like_step_plain c (like_from true (like_prefix path)) (like_from false (like_prefix path))
      (d ∷ text) (ground arith)
    ∙ ground (arith, like_from-like_prefix path text)

-- The pattern of a path without wildcards and escapes matches exactly the texts that begin with it.
like-like_prefix :
    (path text : Bytes)
    → all is_plain path ≡ true
    → like text (like_prefix path) ≡ has_prefix text path
unfolding like
like-like_prefix = like_from-like_prefix

wildcard_matches : like (codes "axb/1") (like_prefix (codes "a_b")) ≡ true
unfolding like
wildcard_matches = refl
