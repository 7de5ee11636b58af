-- ===== src/Db/Content/Sound.antt =====
-- What a sound cache holds for the table of contents, and what a lookup has to find.
use dateilager.Prelude.{
  ◌≡◌, ap, sym, ◌∙◌, ◌⊎◌, Bool, true, Option, none, some, List, Bytes, bytes_eq, bytes_eq_iff,
  Bool-cases, inl, inr, In, find, find-cases, is_some,
}
use dateilager.Result.{ok}
use dateilager.Codec.{Codec}
use dateilager.Db.Schema.{Hash, ContentRow}
use dateilager.Db.Content.{hex, MemoryCache, HashMap, put_hash, get_hash, decoded_if}
use dateilager.Db.Content.Maps.{get_hash-put_same, get_hash-put_other}

-- The content of a hash in the table.
unfoldable pub stored : List ContentRow → Hash → Option Bytes
stored rows hash = elim (find (λ r. bytes_eq r.hash hash) rows) [
  | none ↦ none
  | some r ↦ some r.bytes
]

-- The hash is the key of the table.
abbrev pub IsKeyed : List ContentRow → Type 0
IsKeyed rows = (r : ContentRow) → In r rows → stored rows r.hash ≡ some r.bytes

pub stored→In :
    (rows : List ContentRow) (hash : Hash) (bytes : Bytes)
    → stored rows hash ≡ some bytes
    → (r : ContentRow) × In r rows × (r.hash ≡ hash)
unfolding stored
stored→In rows hash bytes e = elim (find-cases (λ r. bytes_eq r.hash hash) rows) [
  | inl (n, f) ↦ cc (rw (n, stored) at e)
  | inr (r, s, i, t) ↦ (r, i, (bytes_eq_iff r.hash hash).0 t)
]

module _ {S : Type 0} (codec : Codec) (cache : MemoryCache S) where
  -- Whatever the cache holds for a hash is its content in the table.
  abbrev pub IsSound : List ContentRow → S → Type 0
  IsSound rows s =
      (hash : Hash) (value : Bytes)
      → cache.get s (hex hash) ≡ some value
      → stored rows hash ≡ some value

  -- What a lookup has to find: nothing for a hash without a row, else the content as wanted.
  abbrev pub IsWanted : List ContentRow → HashMap Bool → (Hash → Option Bytes) → Type 0
  IsWanted rows wanted content =
      (hash : Hash) (is_encoded : Bool)
      → get_hash hash wanted ≡ some is_encoded
      → ((stored rows hash ≡ none) × (content hash ≡ none))
        ⊎ ((value : Bytes) × (decoded : Bytes) × (stored rows hash ≡ some value)
            × (decoded_if codec is_encoded value ≡ ok decoded)
            × (content hash ≡ some decoded))

  -- Each content that a map has is the right one.
  abbrev pub IsRight : (Hash → Option Bytes) → HashMap Bytes → Type 0
  IsRight content found =
      (hash : Hash) (bytes : Bytes) → get_hash hash found ≡ some bytes → content hash ≡ some bytes

  pub IsRight-put :
      (content : Hash → Option Bytes) (hash : Hash) (bytes : Bytes) (found : HashMap Bytes)
      → IsRight content found
      → content hash ≡ some bytes
      → IsRight content (put_hash hash bytes found)
  IsRight-put content hash bytes found r e other b g = elim (Bool-cases (bytes_eq hash other)) [
    | inl k ↦
        let same = (bytes_eq_iff hash other).0 k in
        cc (same, get_hash-put_same hash bytes found, e, g)
    | inr k ↦ r other b (sym (get_hash-put_other hash other bytes found k) ∙ g)
  ]

  pub is_some-put :
      (hash other : Hash) (bytes : Bytes) (found : HashMap Bytes)
      → is_some (get_hash other found) ≡ true
      → is_some (get_hash other (put_hash hash bytes found)) ≡ true
  is_some-put hash other bytes found h = elim (Bool-cases (bytes_eq hash other)) [
    | inl k ↦
        let same = (bytes_eq_iff hash other).0 k in
        cc (
          ap (λ x. is_some (get_hash x (put_hash hash bytes found))) same,
          ap is_some (get_hash-put_same hash bytes found),
        )
    | inr k ↦ ap is_some (get_hash-put_other hash other bytes found k) ∙ h
  ]

  -- What a wanted hash with a value decodes to.
  pub wanted-decoded :
      (rows : List ContentRow) (wanted : HashMap Bool) (content : Hash → Option Bytes)
      → IsWanted rows wanted content
      → (hash : Hash) (is_encoded : Bool) (value : Bytes) → get_hash hash wanted ≡ some is_encoded
      → stored rows hash ≡ some value
      → (decoded : Bytes) × (decoded_if codec is_encoded value ≡ ok decoded)
        × (content hash ≡ some decoded)
  wanted-decoded rows wanted content w hash b value g e = elim (w hash b g) [
    | inl (n, _) ↦ cc (n, e)
    | inr (v, d, s, k, c) ↦
        let same : v ≡ value = cc (s, e) in (d, ap (decoded_if codec b) (sym same) ∙ k, c)
  ]
