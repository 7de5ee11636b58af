-- ===== src/Db/Content/Hits.antt =====
-- The two loops of a lookup: over the cache, and over the rows of the table.
use dateilager.Prelude.{
  ◌≡◌, refl, ap, ◌∙◌, ◌⊎◌, Bool, true, Option, Option-cases, some, List, [], ◌∷◌, ◌++◌, Bytes, inl,
  inr, In, In-append, is_some,
}
use dateilager.Result.{ok}
use dateilager.Codec.{Codec}
use dateilager.Db.Schema.{Hash, ContentRow}
use dateilager.Db.Content.{
  hex, MemoryCache, IsCache, HashMap, put_hash, get_hash, wants_decoded, look_in_cache,
  look_in_rows,
}
use dateilager.Db.Content.Maps.{hex-inj, get_hash-put_same}
use dateilager.Db.Content.Sound.{
  IsKeyed, IsSound, IsWanted, IsRight, IsRight-put, is_some-put, wanted-decoded,
}

module _ {S : Type 0} (codec : Codec) (cache : MemoryCache S) where
  pub look_in_cache_lem :
      (rows : List ContentRow) (wanted : HashMap Bool) (content : Hash → Option Bytes) (s : S)
      → IsWanted codec cache rows wanted content
      → IsSound codec cache rows s
      → (rest : HashMap Bool) (found : HashMap Bytes) (missing : List Hash)
      → ((hash : Hash) (b : Bool) → In (hash, b) rest → get_hash hash wanted ≡ some b)
      → IsRight codec cache content found
      → (found' : HashMap Bytes) × (missing' : List Hash) × (look_in_cache codec cache s rest found
            missing
          ≡ ok (found', missing'))
        × IsRight codec cache content found'
        × ((hash : Hash)
            → is_some (get_hash hash found) ≡ true
            → is_some (get_hash hash found') ≡ true)
        × ((hash : Hash) (b : Bool)
            → In (hash, b) rest
            → (is_some (get_hash hash found') ≡ true) ⊎ In hash missing')
        × ((hash : Hash) → In hash missing → In hash missing')
        × ((hash : Hash)
            → In hash missing'
            → In hash missing ⊎ ((b : Bool) × (get_hash hash wanted ≡ some b)))
  unfolding look_in_cache
  look_in_cache_lem rows wanted content s w sound [] found missing all_in right =
      (found, missing, refl, right, λ h e. e, λ h b i. absurd i, λ h i. i, λ h i. inl i)
  look_in_cache_lem rows wanted content s w sound ((hash, b) ∷ rest) found missing all_in right =
      elim (Option-cases (cache.get s (hex hash))) [
        | inl e ↦
            let r =
              look_in_cache_lem rows wanted content s w sound rest found (missing ++ hash ∷ [])
                (λ h c i. all_in h c (inr i)) right in
            (
              r.0,
              r.1,
              rw (e, look_in_cache) r.2,
              r.3,
              r.4,
              λ h c i. elim i [
                | inl q ↦
                    inr (r.6 h ((In-append h missing (hash ∷ [])).1 (inr (inl (ap (λ x. x.0) q)))))
                | inr i' ↦ r.5 h c i'
              ],
              λ h i. r.6 h ((In-append h missing (hash ∷ [])).1 (inl i)),
              λ h i. elim (r.7 h i) [
                | inr k ↦ inr k
                | inl k ↦ elim ((In-append h missing (hash ∷ [])).0 k) [
                  | inl a ↦ inl a
                  | inr (inl q) ↦ inr (b, ap (λ x. get_hash x wanted) q ∙ all_in hash b (inl refl))
                  | inr (inr n) ↦ absurd n
                ]
              ],
            )
        | inr (value, e) ↦
            let (decoded, d, c) =
              wanted-decoded codec cache rows wanted content w hash b value
                (all_in hash b (inl refl)) (sound hash value e) in
            let r =
              look_in_cache_lem rows wanted content s w sound rest (put_hash hash decoded found)
                missing (λ h c i. all_in h c (inr i))
                (IsRight-put codec cache content hash decoded found right c) in
            (
              r.0,
              r.1,
              rw (e, d, look_in_cache) r.2,
              r.3,
              λ h k. r.4 h (is_some-put codec cache hash h decoded found k),
              λ h c i. elim i [
                | inl q ↦ inl (
                    r.4 h
                      (rw (ap (λ x. x.0) q) (ap is_some (get_hash-put_same hash decoded found))))
                | inr i' ↦ r.5 h c i'
              ],
              r.6,
              r.7,
            )
      ]

  get_if :
      (wanted : HashMap Bool) (hash : Hash) (b : Bool)
      → get_hash hash wanted ≡ some b
      → wants_decoded hash wanted ≡ b
  get_if wanted hash b g = rw (g, wants_decoded) refl

  pub look_in_rows_lem :
      (rows : List ContentRow) (wanted : HashMap Bool) (content : Hash → Option Bytes)
      → IsCache cache
      → IsKeyed rows
      → IsWanted codec cache rows wanted content
      → (rest : List ContentRow) (found : HashMap Bytes) (s : S)
      → ((r : ContentRow)
          → In r rest
          → In r rows × ((b : Bool) × (get_hash r.hash wanted ≡ some b)))
      → IsRight codec cache content found
      → IsSound codec cache rows s
      → (found' : HashMap Bytes) × (s' : S) × (look_in_rows codec cache s wanted rest found
          ≡ (s', ok found'))
        × IsRight codec cache content found'
        × IsSound codec cache rows s'
        × ((hash : Hash)
            → is_some (get_hash hash found) ≡ true
            → is_some (get_hash hash found') ≡ true)
        × ((r : ContentRow) → In r rest → is_some (get_hash r.hash found') ≡ true)
  unfolding look_in_rows
  look_in_rows_lem rows wanted content law keyed w [] found s i right sound =
      (found, s, refl, right, sound, λ h e. e, λ r k. absurd k)
  look_in_rows_lem rows wanted content law keyed w (row ∷ rest) found s i right sound =
      let (b, g) = (i row (inl refl)).1 in
      let (decoded, d, c) =
        wanted-decoded codec cache rows wanted content w row.hash b row.bytes g
          (keyed row (i row (inl refl)).0) in
      let s1 = cache.set s (hex row.hash) row.bytes in
      let found1 = put_hash row.hash decoded found in
      let sound1 : IsSound codec cache rows s1 = λ h v e.
        elim (law.get-set s (hex row.hash) row.bytes (hex h) v e) [
          | inl (k, q) ↦
              let same = hex-inj h row.hash k in cc (same, q, keyed row (i row (inl refl)).0)
          | inr k ↦ sound h v k
        ] in
      let (found', s', e, right', sound', more, rest_in) =
        look_in_rows_lem rows wanted content law keyed w rest found1 s1 (λ r k. i r (inr k))
          (IsRight-put codec cache content row.hash decoded found right c) sound1 in
      (
        found',
        s',
        rw (get_if wanted row.hash b g, d, look_in_rows) e,
        right',
        sound',
        λ h k. more h (is_some-put codec cache row.hash h decoded found k),
        λ r k. elim k [
          | inl q ↦
              more r.hash
                (rw (ap (λ x. x.hash) q) (ap is_some (get_hash-put_same row.hash decoded found)))
          | inr k' ↦ rest_in r k'
        ],
      )
