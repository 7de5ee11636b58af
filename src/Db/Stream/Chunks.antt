-- ===== src/Db/Stream/Chunks.antt =====
-- loadChunk loads the content of each object of a chunk.
use dateilager.Prelude.{
  ℕ, zero, suc, ◌≡◌, refl, ap, sym, ◌∙◌, ◌⊎◌, ◌≢◌, Bool, true, false, not, ◌&&◌, Option,
  Option-cases, none, some, List, [], ◌∷◌, map, Bytes, bytes_eq, bytes_eq_iff, bytes_eq_refl, inl,
  inr, In, find, find-cases, arith, take, drop,
}
use dateilager.Result.{ok}
use dateilager.Codec.{Codec}
use dateilager.Db.Schema.{Hash, ContentRow, Tables}
use dateilager.Db.Session.{calm}
use dateilager.Db.Query.{DbObject}
use dateilager.Db.Content.{MemoryCache, IsCache, HashMap, get_hash, decoded_if}
use dateilager.Db.Content.Sound.{stored, IsKeyed, IsSound, IsWanted}
use dateilager.Db.Content.Found.{lookup_lem}
use dateilager.Db.Stream.{wanted_hashes, loaded_content, load_chunk, chunk_size}
use dateilager.Db.Stream.Keys.{wanted_hashes-get, wanted_hashes-Unique, wanted_hashes-In}

nothing : (hash : Hash) (b : Bool) → get_hash hash [] ≢ some b
unfolding get_hash
nothing hash b g = cc

In-take : (n : ℕ) (xs : List DbObject) (o : DbObject) → In o (take n xs) → In o xs
In-take zero xs o i = absurd i
In-take (suc n) [] o i = absurd i
In-take (suc n) (x ∷ xs) o (inl e) = inl e
In-take (suc n) (x ∷ xs) o (inr i) = inr (In-take n xs o i)

In-drop : (n : ℕ) (xs : List DbObject) (o : DbObject) → In o (drop n xs) → In o xs
In-drop zero xs o i = i
In-drop (suc n) [] o i = absurd i
In-drop (suc n) (x ∷ xs) o i = inr (In-drop n xs o i)

map-In :
    (f g : DbObject → Bytes) (xs : List DbObject)
    → ((o : DbObject) → In o xs → f o ≡ g o)
    → map f xs ≡ map g xs
map-In f g [] h = refl
map-In f g (x ∷ xs) h = rw (h x (inl refl), map-In f g xs (λ o i. h o (inr i))) refl

-- What the content of an object is: the hash of a cached one; nothing without a row; the bytes of
-- a pack; and else what the row's bytes decode to.
abbrev pub IsContent : Codec → List ContentRow → DbObject → Bytes → Type 0
IsContent codec rows o bytes =
    ((o.cached ≡ true) × (bytes ≡ o.hash))
    ⊎ ((o.cached ≡ false)
        × (((stored rows o.hash ≡ none) × (bytes ≡ []))
            ⊎ ((value : Bytes) × (stored rows o.hash ≡ some value)
                × (decoded_if codec (not o.packed) value ≡ ok bytes))))

-- Each object has its content, and objects with one hash have one content.
abbrev pub IsLoadable : Codec → List ContentRow → List DbObject → (DbObject → Bytes) → Type 0
IsLoadable codec rows objects content =
    ((o : DbObject) → In o objects → IsContent codec rows o (content o))
    × ((o q : DbObject)
        → In o objects
        → In q objects
        → o.cached ≡ false
        → q.cached ≡ false
        → o.hash ≡ q.hash
        → content o ≡ content q)

abbrev is_uncached : Hash → DbObject → Bool
is_uncached hash o = not o.cached && bytes_eq o.hash hash

abbrev content_at : (DbObject → Bytes) → Option DbObject → Option Bytes
content_at content none = none
content_at content (some o) = some (content o)

module _ {S : Type 0} (codec : Codec) (cache : MemoryCache S) where
  content_by : List ContentRow → List DbObject → (DbObject → Bytes) → Hash → Option Bytes
  content_by rows objects content hash = elim (stored rows hash) [
    | none ↦ none
    | some _ ↦ content_at content (find (is_uncached hash) objects)
  ]

  content_by-In :
      (rows : List ContentRow) (objects : List DbObject) (content : DbObject → Bytes)
      → IsLoadable codec rows objects content
      → (o : DbObject) (value : Bytes) → In o objects
      → o.cached ≡ false
      → stored rows o.hash ≡ some value
      → content_by rows objects content o.hash ≡ some (content o)
  unfolding content_by
  content_by-In rows objects content l o value i c s =
      elim (find-cases (is_uncached o.hash) objects) [
        | inl (_, f) ↦
            let here : is_uncached o.hash o ≡ true = rw (c, bytes_eq_refl o.hash) refl in
            cc (f o i, here)
        | inr (q, e, iq, p) ↦
            let uncached : q.cached ≡ false = ground arith in
            let equal : bytes_eq q.hash o.hash ≡ true = ground arith in
            let same = l.1 q o iq i uncached c ((bytes_eq_iff q.hash o.hash).0 equal) in
            rw (s, e, content_by) (ap some same)
      ]

  wanted_lem :
      (rows : List ContentRow) (objects : List DbObject) (content : DbObject → Bytes)
      → IsLoadable codec rows objects content
      → IsWanted codec cache rows (wanted_hashes [] objects) (content_by rows objects content)
  unfolding content_by
  wanted_lem rows objects content l hash b g = elim (wanted_hashes-get [] objects hash b g) [
    | inl n ↦ absurd (nothing hash b n)
    | inr (o, i, c, h, p) ↦ elim (l.0 o i) [
      | inl (k, _) ↦ cc (c, k)
      | inr (_, inl (n, _)) ↦
          inl (ap (stored rows) (sym h) ∙ n, rw (ap (stored rows) (sym h) ∙ n, content_by) refl)
      | inr (_, inr (value, v, d)) ↦ inr (
        value,
        content o,
        ap (stored rows) (sym h) ∙ v,
        ap (λ x. decoded_if codec x value) (sym p) ∙ d,
        ap (content_by rows objects content) (sym h)
            ∙ content_by-In rows objects content l o value i c v,
      )
    ]
  ]

  loaded-cached :
      (found : HashMap Bytes) (o : DbObject) → o.cached ≡ true → loaded_content found o ≡ o.hash
  loaded-cached found o c = rw c refl

  loaded-none :
      (found : HashMap Bytes) (o : DbObject)
      → o.cached ≡ false
      → get_hash o.hash found ≡ none
      → loaded_content found o ≡ []
  loaded-none found o c g = rw (c, g) refl

  loaded-some :
      (found : HashMap Bytes) (o : DbObject) (bytes : Bytes)
      → o.cached ≡ false
      → get_hash o.hash found ≡ some bytes
      → loaded_content found o ≡ bytes
  loaded-some found o bytes c g = rw (c, g) refl

  loaded :
      (rows : List ContentRow) (objects : List DbObject) (content : DbObject → Bytes)
      (found : HashMap Bytes)
      → IsLoadable codec rows objects content
      → ((hash : Hash) (b : Bool)
          → get_hash hash (wanted_hashes [] objects) ≡ some b
          → get_hash hash found ≡ content_by rows objects content hash)
      → (o : DbObject) → In o objects
      → loaded_content found o ≡ content o
  unfolding content_by
  loaded rows objects content found l f o i = elim (l.0 o i) [
    | inl (c, e) ↦ loaded-cached found o c ∙ sym e
    | inr (c, h) ↦ elim (Option-cases (get_hash o.hash (wanted_hashes [] objects))) [
      | inl n ↦ cc (n, wanted_hashes-In [] objects o i c)
      | inr (b, g) ↦ elim h [
        | inl (n, e) ↦ loaded-none found o c (f o.hash b g ∙ rw (n, content_by) refl) ∙ sym e
        | inr (value, v, _) ↦
            loaded-some found o (content o) c
              (f o.hash b g ∙ content_by-In rows objects content l o value i c v)
      ]
    ]
  ]

  -- loadChunk returns the contents of the objects of its chunk, in their order.
  pub load_chunk_lem :
      (v t : Tables) (objects : List DbObject) (content : DbObject → Bytes) (s : S) (start : ℕ)
      → IsCache cache
      → IsKeyed v.contents
      → IsLoadable codec v.contents objects content
      → IsSound codec cache v.contents s
      → (s' : S) × (load_chunk codec cache s objects start (calm v t)
          ≡ ((s', ok (map content (take chunk_size (drop start objects)))), calm v t))
        × IsSound codec cache v.contents s'
  unfolding load_chunk
  load_chunk_lem v t objects content s start law keyed l sound =
      let chunk = take chunk_size (drop start objects) in
      let inside : (o : DbObject) → In o chunk → In o objects =
        λ o i. In-drop start objects o (In-take chunk_size (drop start objects) o i) in
      let l' : IsLoadable codec v.contents chunk content =
        (λ o i. l.0 o (inside o i), λ o q i k. l.1 o q (inside o i) (inside q k)) in
      let (found, s', e, sound', f) =
        lookup_lem codec cache v t (wanted_hashes [] chunk) (content_by v.contents chunk content) s
          law keyed (wanted_hashes-Unique [] chunk tt) (wanted_lem v.contents chunk content l')
          sound in
      (
        s',
        rw (e, load_chunk)
            (ap (λ xs. ((s', ok xs), calm v t))
              (map-In (loaded_content found) content chunk
                (loaded v.contents chunk content found l' f))),
        sound',
      )
