-- ===== src/Db/Content/Maps.antt =====
-- The keys of the memory cache, and maps by hash.
use dateilager.Prelude.{
  ℕ, ◌/◌, ◌%◌, ◌≡◌, refl, ap, sym, ◌∙◌, false, none, some, [], ◌∷◌, bytes_eq, bytes_eq_iff,
  bytes_eq_refl, Bool-cases, inl, inr, In, arith,
}
use dateilager.Db.Schema.{Hash}
use dateilager.Db.Content.{hex_digit, hex, HashMap, put_hash, get_hash}

hex_digit-inj : (a b : ℕ) → hex_digit a ≡ hex_digit b → a ≡ b
hex_digit-inj a b h = ground arith

-- Two hashes with one text are equal.
pub hex-inj : (a b : Hash) → hex a ≡ hex b → a ≡ b
unfolding hex
hex-inj [] [] h = refl
hex-inj [] (y ∷ b) h = cc
hex-inj (x ∷ a) [] h = cc
hex-inj (x ∷ a) (y ∷ b) h =
    let high : hex_digit (x / 16) ≡ hex_digit (y / 16) = cc h in
    let low : hex_digit (x % 16) ≡ hex_digit (y % 16) = cc h in
    let rest : hex a ≡ hex b = cc h in
    let highs = hex_digit-inj (x / 16) (y / 16) high in
    let lows = hex_digit-inj (x % 16) (y % 16) low in
    let same : x ≡ y = omega arith in cc (same, hex-inj a b rest)

flip : (a b : Hash) → bytes_eq a b ≡ false → bytes_eq b a ≡ false
flip a b n = elim (Bool-cases (bytes_eq b a)) [
  | inl e ↦ cc (bytes_eq_refl b, (bytes_eq_iff b a).0 e, n)
  | inr e ↦ e
]

module _ {A : Type 0} where
  pub get_hash-put_same :
      (hash : Hash) (a : A) (m : HashMap A) → get_hash hash (put_hash hash a m) ≡ some a
  unfolding get_hash put_hash
  get_hash-put_same hash a [] = rw (bytes_eq_refl hash) refl
  get_hash-put_same hash a ((h, b) ∷ m) = elim (Bool-cases (bytes_eq h hash)) [
    | inl e ↦ rw (e, bytes_eq_refl hash) refl
    | inr e ↦ rw (e, e) (get_hash-put_same hash a m)
  ]

  pub get_hash-put_other :
      (hash other : Hash) (a : A) (m : HashMap A)
      → bytes_eq hash other ≡ false
      → get_hash other (put_hash hash a m) ≡ get_hash other m
  unfolding get_hash put_hash
  get_hash-put_other hash other a [] n = rw n refl
  get_hash-put_other hash other a ((h, b) ∷ m) n = elim (Bool-cases (bytes_eq h hash)) [
    | inl e ↦
        let same : h ≡ hash = (bytes_eq_iff h hash).0 e in
        let away : bytes_eq h other ≡ false = ap (λ x. bytes_eq x other) same ∙ n in
        rw (e, n, away) refl
    | inr e ↦ rw (e, get_hash-put_other hash other a m n) refl
  ]

  -- No key stands twice.
  abbrev pub Unique : HashMap A → Type 0
  Unique [] = Unit
  Unique ((h, b) ∷ m) = (get_hash h m ≡ none) × Unique m

  pub Unique-put : (hash : Hash) (a : A) (m : HashMap A) → Unique m → Unique (put_hash hash a m)
  unfolding put_hash get_hash
  Unique-put hash a [] u = (refl, tt)
  Unique-put hash a ((h, b) ∷ m) u = elim (Bool-cases (bytes_eq h hash)) [
    | inl e ↦ rw e (ap (λ x. get_hash x m) (sym ((bytes_eq_iff h hash).0 e)) ∙ u.0, u.1)
    | inr e ↦ rw e (get_hash-put_other hash h a m (flip h hash e) ∙ u.0, Unique-put hash a m u.1)
  ]

  pub get_hash-In :
      (hash : Hash) (a : A) (m : HashMap A) → Unique m → In (hash, a) m → get_hash hash m ≡ some a
  unfolding get_hash
  get_hash-In hash a [] u i = absurd i
  get_hash-In hash a ((h, b) ∷ m) u (inl e) = ground (arith, bytes_eq_refl h)
  get_hash-In hash a ((h, b) ∷ m) u (inr i) = elim (Bool-cases (bytes_eq h hash)) [
    | inl e ↦ cc (u.0, (bytes_eq_iff h hash).0 e, get_hash-In hash a m u.1 i)
    | inr e ↦ rw e (get_hash-In hash a m u.1 i)
  ]

  pub get_hash→In :
      (hash : Hash) (a : A) (m : HashMap A) → get_hash hash m ≡ some a → In (hash, a) m
  unfolding get_hash
  get_hash→In hash a [] e = cc
  get_hash→In hash a ((h, b) ∷ m) e = elim (Bool-cases (bytes_eq h hash)) [
    | inl k ↦ let same = (bytes_eq_iff h hash).0 k in inl (cc (same, rw (k, get_hash) at e))
    | inr k ↦ inr (get_hash→In hash a m (rw (k, get_hash) at e))
  ]
