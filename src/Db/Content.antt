-- ===== src/Db/Content.antt =====
-- ContentLookup of internal/db/content.go: the contents of many hashes, from a cache in memory that
-- all requests share, and from the table.
--
-- ristretto's cache is a parameter: it may drop what it was given. A Go map is a list with at most
-- one entry for a key; the order of a map's range, which Go leaves open, is the list's.
pub mod Maps
pub mod Sound
pub mod Hits
pub mod Found
use dateilager.Prelude.{
  ℕ, suc, ◌+◌, ◌-◌, ◌/◌, ◌%◌, ◌≡◌, ◌⊎◌, Bool, true, false, ◌&&◌, Option, none, some, List, [], ◌∷◌,
  ◌++◌, Bytes, bytes_eq, any, filter, find, ltb, if◌then◌else◌,
}
use dateilager.Result.{Result, ok, err, ◌>>=◌}
use dateilager.Codec.{Codec}
use dateilager.Db.Schema.{Hash, ContentRow, Tables}
use dateilager.Db.Session.{Tx, Statement, Session, exec}

-- hextable[v]
abbrev pub hex_digit : ℕ → ℕ
hex_digit v = if ltb v 10 then b'0' + v else b'a' + (v - 10)

-- Hash.Hex
unfoldable pub hex : Hash → Bytes
hex [] = []
hex (v ∷ vs) = hex_digit (v / 16) ∷ hex_digit (v % 16) ∷ hex vs

-- ristretto.Cache, with the state that its methods work on
pub record MemoryCache (S : Type 0) : Type 0 where
  pub get : S → Bytes → Option Bytes
  pub set : S → Bytes → Bytes → S

-- What a cache holds after a Set was set just now, or was there before.
pub record IsCache {S : Type 0} (c : MemoryCache S) : Type 0 where
  pub get-set :
      (s : S) (key value other found : Bytes)
      → c.get (c.set s key value) other ≡ some found
      → ((other ≡ key) × (found ≡ value)) ⊎ (c.get s other ≡ some found)

-- A map whose keys are hashes.
abbrev pub HashMap : Type 0 → Type 0
HashMap A = List (Hash × A)

-- m[hash] = a
unfoldable pub put_hash : {A : Type 0} → Hash → A → HashMap A → HashMap A
put_hash hash a [] = (hash, a) ∷ []
put_hash hash a ((h, b) ∷ m) =
    let rest = put_hash hash a m in if bytes_eq h hash then (hash, a) ∷ m else (h, b) ∷ rest

-- m[hash]
unfoldable pub get_hash : {A : Type 0} → Hash → HashMap A → Option A
get_hash hash [] = none
get_hash hash ((h, b) ∷ m) = let rest = get_hash hash m in if bytes_eq h hash then some b else rest

-- hashesToLookup[hash], which is false for a missing key
abbrev pub wants_decoded : Hash → HashMap Bool → Bool
wants_decoded hash wanted = elim (get_hash hash wanted) [ none ↦ false | some b ↦ b ]

-- A content as the caller wants it: `is_encoded` asks for its decoded form.
abbrev pub decoded_if : Codec → Bool → Bytes → Result Bytes
decoded_if codec is_encoded value = if is_encoded then codec.decode value else ok value

module _ {S : Type 0} (codec : Codec) (cache : MemoryCache S) where
  -- The loop over the cache: the contents that it has, and the hashes that it has not.
  unfoldable pub look_in_cache :
      S → HashMap Bool → HashMap Bytes → List Hash → Result (HashMap Bytes × List Hash)
  look_in_cache s [] contents not_found = ok (contents, not_found)
  look_in_cache s ((hash, is_encoded) ∷ wanted) contents not_found = elim (cache.get s (hex hash)) [
    | none ↦ look_in_cache s wanted contents (not_found ++ hash ∷ [])
    | some value ↦ do
      decoded ← decoded_if codec is_encoded value
      look_in_cache s wanted (put_hash hash decoded contents) not_found
  ]

  -- The loop over the rows, each of which goes to the cache. A hash that is not wanted reads false.
  unfoldable pub look_in_rows :
      S → HashMap Bool → List ContentRow → HashMap Bytes → S × Result (HashMap Bytes)
  look_in_rows s wanted [] contents = (s, ok contents)
  look_in_rows s wanted (row ∷ rows) contents =
      let s' = cache.set s (hex row.hash) row.bytes in
      elim (decoded_if codec (wants_decoded row.hash wanted) row.bytes) [
        | err e ↦ (s', err e)
        | ok decoded ↦ look_in_rows s' wanted rows (put_hash row.hash decoded contents)
      ]

  -- SELECT … WHERE hash = ANY($1)
  unfoldable pub rows_of : List Hash → Statement (List ContentRow)
  rows_of hashes t = ok (filter (λ r. any (bytes_eq r.hash) hashes) t.contents, t)

  abbrev pub look_in_table :
      S
      → HashMap Bool
      → HashMap Bytes × List Hash
      → Session
      → (S × Result (HashMap Bytes)) × Session
  look_in_table s wanted (contents, []) t = ((s, ok contents), t)
  look_in_table s wanted (contents, hash ∷ hashes) t =
      let (rows, t') = exec (rows_of (hash ∷ hashes)) t in
      elim rows [ err e ↦ ((s, err e), t') | ok rs ↦ (look_in_rows s wanted rs contents, t') ]

  -- Lookup. The cache keeps what it was given when an error ends the lookup.
  unfoldable pub lookup : S → HashMap Bool → Session → (S × Result (HashMap Bytes)) × Session
  unfolding look_in_cache look_in_rows rows_of exec
  lookup s wanted t = elim (look_in_cache s wanted [] []) [
    | err e ↦ ((s, err e), t)
    | ok found ↦ look_in_table s wanted found t
  ]
