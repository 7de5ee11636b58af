-- ===== src/Decimal.antt =====
-- strconv.ParseInt, strconv.FormatInt and the %v of fmt on an int64, in base 10, and the pieces of
-- the texts that internal/auth and pkg/client make of them.
use dateilager.Prelude.{
  ℕ, zero, suc, ◌+◌, ◌-◌, ◌*◌, ◌/◌, ◌%◌, ◌^◌, ◌<◌, ◌∙◌, ◌≡◌, refl, ap, ◌≢◌, Bool, true, false, not,
  ◌&&◌, ◌||◌, Option, none, some, List, [], ◌∷◌, ◌++◌, ℤ, pos, negsuc, ◌==◌, ltb, leb, Bytes,
  if◌then◌else◌, arith, all, split, join, Bool-cases, append_assoc, inl, inr, All,
}

unfoldable parse_digits : ℕ → Bytes → Option ℕ
parse_digits n [] = some n
parse_digits n (c ∷ text) =
    if leb b'0' c && leb c b'9' then parse_digits (n * 10 + (c - b'0')) text else none

abbrev parse_unsigned : Bytes → Option ℕ
parse_unsigned [] = none
parse_unsigned (c ∷ text) = parse_digits 0 (c ∷ text)

abbrev in_range : Bool → Option ℕ → Option ℤ
in_range negative none = none
in_range true (some zero) = some (pos 0)
in_range true (some (suc n)) = if ltb n (2 ^ 63) then some (negsuc n) else none
in_range false (some n) = if ltb n (2 ^ 63) then some (pos n) else none

-- strconv.ParseInt(text, 10, 64), with an optional sign
unfoldable pub parse_int : Bytes → Option ℤ
unfolding parse_digits
parse_int [] = none
parse_int (c ∷ text) =
    if c == b'-'
    then in_range true (parse_unsigned text)
    else if c == b'+'
    then in_range false (parse_unsigned text)
    else in_range false (parse_unsigned (c ∷ text))

-- The last digits of a number, at most `fuel` of them.
unfoldable format_digits : ℕ → ℕ → Bytes
format_digits zero n = []
format_digits (suc fuel) n =
    let rest = format_digits fuel (n / 10) in
    if ltb n 10 then (b'0' + n) ∷ [] else rest ++ (b'0' + n % 10) ∷ []

-- strconv.FormatInt(v, 10): an int64 has at most 19 digits.
unfoldable pub format_int : ℤ → Bytes
unfolding format_digits
format_int (pos n) = format_digits 19 n
format_int (negsuc n) = b'-' ∷ format_digits 19 (n + 1)

-- The values of an int64.
abbrev pub IsInt64 : ℤ → Type 0
IsInt64 (pos n) = n < 2 ^ 63
IsInt64 (negsuc n) = n < 2 ^ 63

parse_digits-append :
    (a : ℕ) (xs : Bytes) (m d : ℕ)
    → parse_digits a xs ≡ some m
    → d < 10
    → parse_digits a (xs ++ (b'0' + d) ∷ []) ≡ some (m * 10 + d)
unfolding parse_digits
parse_digits-append a [] m d e b = ground arith
parse_digits-append a (c ∷ xs) m d e b = elim (Bool-cases (leb b'0' c && leb c b'9')) [
  | inl k ↦ rw k (parse_digits-append (a * 10 + (c - b'0')) xs m d (rw k at e) b)
  | inr k ↦ cc (rw k at e)
]

parse_digits-format_digits :
    (fuel n : ℕ) → n < 10 ^ suc fuel → parse_digits 0 (format_digits (suc fuel) n) ≡ some n
unfolding parse_digits format_digits
parse_digits-format_digits zero n b = ground arith
parse_digits-format_digits (suc fuel) n b = elim (Bool-cases (ltb n 10)) [
  | inl k ↦ rw k (ground arith)
  | inr k ↦ rw k (
      parse_digits-append 0 (format_digits (suc fuel) (n / 10)) (n / 10) (n % 10)
        (parse_digits-format_digits fuel (n / 10) (omega arith)) (omega arith)
      ∙ ap some (omega arith))
]

-- What a decimal number is made of.
abbrev pub is_decimal : ℕ → Bool
is_decimal c = c == b'-' || leb b'0' c && leb c b'9'

pub all-append :
    (p : ℕ → Bool) (xs ys : Bytes) → all p xs ≡ true → all p ys ≡ true → all p (xs ++ ys) ≡ true
unfolding all
all-append p [] ys h k = k
all-append p (x ∷ xs) ys h k = ground (arith, all-append p xs ys (ground arith) k)

format_digits-digits :
    (fuel n : ℕ) → all (λ c. leb b'0' c && leb c b'9') (format_digits fuel n) ≡ true
unfolding format_digits all
format_digits-digits zero n = refl
format_digits-digits (suc fuel) n = elim (Bool-cases (ltb n 10)) [
  | inl k ↦ rw k (ground arith)
  | inr k ↦ rw k (
      all-append (λ c. leb b'0' c && leb c b'9') (format_digits fuel (n / 10))
        ((b'0' + n % 10) ∷ []) (format_digits-digits fuel (n / 10)) (ground arith))
]

format_digits-nonempty : (fuel n : ℕ) → format_digits (suc fuel) n ≢ []
unfolding format_digits
format_digits-nonempty fuel n e = elim (Bool-cases (ltb n 10)) [
  | inl k ↦ cc (rw k at e)
  | inr k ↦ append-nonempty (format_digits fuel (n / 10)) (b'0' + n % 10) (rw k at e)
]
  where
    append-nonempty : (xs : Bytes) (c : ℕ) → xs ++ c ∷ [] ≢ []
    append-nonempty [] c e = cc
    append-nonempty (x ∷ xs) c e = cc

-- Digits read as the number they stand for, with either sign.
parse_int-digits :
    (xs : Bytes) (n : ℕ)
    → xs ≢ []
    → all (λ c. leb b'0' c && leb c b'9') xs ≡ true
    → parse_digits 0 xs ≡ some n
    → (parse_int xs ≡ in_range false (some n)) × (parse_int (b'-' ∷ xs) ≡ in_range true (some n))
unfolding parse_int all
parse_int-digits [] n s a e = absurd (s refl)
parse_int-digits (c ∷ xs) n s a e =
    let minus : (c == b'-') ≡ false = ground arith in
    let plus : (c == b'+') ≡ false = ground arith in (rw (minus, plus, e) refl, rw e refl)

-- A printed int64 reads back.
pub parse_int-format_int : (v : ℤ) → IsInt64 v → parse_int (format_int v) ≡ some v
unfolding format_int
parse_int-format_int (pos n) b =
    let r =
      parse_int-digits (format_digits 19 n) n (format_digits-nonempty 18 n)
        (format_digits-digits 19 n) (parse_digits-format_digits 18 n (omega arith)) in
    r.0 ∙ ground arith
parse_int-format_int (negsuc n) b =
    let r =
      parse_int-digits (format_digits 19 (n + 1)) (n + 1) (format_digits-nonempty 18 (n + 1))
        (format_digits-digits 19 (n + 1)) (parse_digits-format_digits 18 (n + 1) (omega arith)) in
    r.1 ∙ ground arith

all_mono :
    (p q : ℕ → Bool) (xs : Bytes)
    → ((c : ℕ) → p c ≡ true → q c ≡ true)
    → all p xs ≡ true
    → all q xs ≡ true
unfolding all
all_mono p q [] h a = refl
all_mono p q (x ∷ xs) h a = rw (h x (ground arith)) (all_mono p q xs h (ground arith))

pub format_int-decimal : (v : ℤ) → all is_decimal (format_int v) ≡ true
unfolding format_int all
format_int-decimal (pos n) =
    all_mono (λ c. leb b'0' c && leb c b'9') is_decimal (format_digits 19 n) (λ c h. ground arith)
      (format_digits-digits 19 n)
format_int-decimal (negsuc n) =
    all_mono (λ c. leb b'0' c && leb c b'9') is_decimal (format_digits 19 (n + 1))
      (λ c h. ground arith) (format_digits-digits 19 (n + 1))

-- A text without the separator.
abbrev pub IsPiece : ℕ → Bytes → Type 0
IsPiece separator piece = all (λ c. not (c == separator)) piece ≡ true

pub format_int-IsPiece :
    (separator : ℕ) (v : ℤ) → is_decimal separator ≡ false → IsPiece separator (format_int v)
format_int-IsPiece separator v h =
    all_mono is_decimal (λ c. not (c == separator)) (format_int v) (λ c k. ground arith)
      (format_int-decimal v)

pub split-piece :
    (separator : ℕ) (piece : Bytes) → IsPiece separator piece → split separator piece ≡ piece ∷ []
unfolding split all
split-piece separator [] h = refl
split-piece separator (c ∷ piece) h =
    let away : (c == separator) ≡ false = ground arith in
    rw (away, split-piece separator piece (ground arith)) refl

pub split-append :
    (separator : ℕ) (piece text : Bytes)
    → IsPiece separator piece
    → split separator (piece ++ separator ∷ text) ≡ piece ∷ split separator text
unfolding split all
split-append separator [] text h =
    let here : (separator == separator) ≡ true = ground arith in rw here refl
split-append separator (c ∷ piece) text h =
    let away : (c == separator) ≡ false = ground arith in
    rw (away, split-append separator piece text (ground arith)) refl

-- Splitting undoes joining, for at least one piece.
pub split-join :
    (separator : ℕ) (piece : Bytes) (pieces : List Bytes)
    → All (IsPiece separator) (piece ∷ pieces)
    → split separator (join (separator ∷ []) (piece ∷ pieces)) ≡ piece ∷ pieces
unfolding join
split-join separator piece [] h = split-piece separator piece h.0
split-join separator piece (next ∷ pieces) h =
    ap (split separator)
      (append_assoc piece (separator ∷ []) (join (separator ∷ []) (next ∷ pieces)))
    ∙ split-append separator piece (join (separator ∷ []) (next ∷ pieces)) h.0
    ∙ ap (λ ps. piece ∷ ps) (split-join separator next pieces h.1)
