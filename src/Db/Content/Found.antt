-- ===== src/Db/Content/Found.antt =====
-- Lookup finds the content of each wanted hash, wherever the cache has it from.
use dateilager.Prelude.{
  ◌≡◌, refl, ap, sym, ◌∙◌, ◌⊎◌, ◌≢◌, Bool, true, Option, Option-cases, none, some, List, [], ◌∷◌,
  Bytes, bytes_eq, bytes_eq_iff, inl, inr, In, In-filter, In→any, any→In, any, filter, is_some,
}
use dateilager.Result.{ok}
use dateilager.Codec.{Codec}
use dateilager.Db.Schema.{Hash, ContentRow, Tables}
use dateilager.Db.Session.{calm, exec}
use dateilager.Db.Content.{
  MemoryCache, IsCache, HashMap, get_hash, look_in_cache, look_in_rows, rows_of, lookup,
}
use dateilager.Db.Content.Maps.{Unique, get_hash→In, get_hash-In}
use dateilager.Db.Content.Sound.{stored, stored→In, IsKeyed, IsSound, IsWanted, IsRight}
use dateilager.Db.Content.Hits.{look_in_cache_lem, look_in_rows_lem}

List-cases : {A : Type 0} (xs : List A) → (xs ≡ []) ⊎ ((x : A) × (ys : List A) × (xs ≡ x ∷ ys))
List-cases [] = inl refl
List-cases (x ∷ xs) = inr (x, xs, refl)

module _ {S : Type 0} (codec : Codec) (cache : MemoryCache S) where
  nothing : (hash : Hash) (bytes : Bytes) → get_hash hash [] ≢ some bytes
  unfolding get_hash
  nothing hash bytes g = cc

  settle :
      (rows : List ContentRow) (wanted : HashMap Bool) (content : Hash → Option Bytes)
      → IsWanted codec cache rows wanted content
      → (found : HashMap Bytes) → IsRight codec cache content found
      → (hash : Hash) (b : Bool) → get_hash hash wanted ≡ some b
      → (is_some (get_hash hash found) ≡ true) ⊎ (stored rows hash ≡ none)
      → get_hash hash found ≡ content hash
  settle rows wanted content w found right hash b g h = elim (Option-cases (get_hash hash found)) [
    | inr (bytes, e) ↦ e ∙ sym (right hash bytes e)
    | inl e ↦ elim h [
      | inl k ↦ cc (e, k)
      | inr n ↦ elim (w hash b g) [
        | inl (_, c) ↦ e ∙ sym c
        | inr (value, decoded, s, _, _) ↦ cc (n, s)
      ]
    ]
  ]

  run_lookup :
      (v t : Tables) (wanted : HashMap Bool) (s : S) (found : HashMap Bytes) (first : Hash)
      (others : List Hash) (s' : S) (found' : HashMap Bytes)
      → look_in_cache codec cache s wanted [] [] ≡ ok (found, first ∷ others)
      → look_in_rows codec cache s wanted
          (filter (λ r. any (bytes_eq r.hash) (first ∷ others)) v.contents)
          found
        ≡ (s', ok found')
      → lookup codec cache s wanted (calm v t) ≡ ((s', ok found'), calm v t)
  unfolding lookup exec rows_of
  run_lookup v t wanted s found first others s' found' e e' =
      rw (e, lookup) (ap (λ x. (x, calm v t)) e')

  -- A lookup of wanted hashes finds the content of each one, whichever of them the cache has, and
  -- leaves the cache sound.
  pub lookup_lem :
      (v t : Tables) (wanted : HashMap Bool) (content : Hash → Option Bytes) (s : S)
      → IsCache cache
      → IsKeyed v.contents
      → Unique wanted
      → IsWanted codec cache v.contents wanted content
      → IsSound codec cache v.contents s
      → (found : HashMap Bytes) × (s' : S) × (lookup codec cache s wanted (calm v t)
          ≡ ((s', ok found), calm v t))
        × IsSound codec cache v.contents s'
        × ((hash : Hash) (b : Bool)
            → get_hash hash wanted ≡ some b
            → get_hash hash found ≡ content hash)
  unfolding lookup
  lookup_lem v t wanted content s law keyed unique w sound =
      let (found, missing, e, right, _, cover, _, keys) =
        look_in_cache_lem codec cache v.contents wanted content s w sound wanted [] []
          (λ h b i. get_hash-In h b wanted unique i) (λ h b g. absurd (nothing h b g)) in
      let settled = settle v.contents wanted content w in
      elim (List-cases missing) [
        | inl none_left ↦ (
          found,
          s,
          rw (e, none_left, lookup) refl,
          sound,
          λ h b g. settled found right h b g (elim (cover h b (get_hash→In h b wanted g)) [
            | inl k ↦ inl k
            | inr i ↦ absurd (rw none_left at i)
          ]),
        )
        | inr (first, others, some_left) ↦
            let rows = filter (λ r. any (bytes_eq r.hash) missing) v.contents in
            let inside : (r : ContentRow)
                → In r rows
                → In r v.contents × ((b : Bool) × (get_hash r.hash wanted ≡ some b)) =
              λ r i.
                let (m, p) = (In-filter (λ q. any (bytes_eq q.hash) missing) r v.contents).0 i in
                let (x, ix, same) = any→In (bytes_eq r.hash) missing p in
                (
                  m,
                  elim (keys x ix) [
                    | inl n ↦ absurd n
                    | inr (b, g) ↦
                        (b, ap (λ y. get_hash y wanted) ((bytes_eq_iff r.hash x).0 same) ∙ g)
                  ],
                ) in
            let (found', s', e', right', sound', more, all_rows) =
              look_in_rows_lem codec cache v.contents wanted content law keyed w rows found s inside
                right sound in
            (
              found',
              s',
              run_lookup v t wanted s found first others s' found'
                  (e ∙ ap (λ m. ok (found, m)) some_left)
                  (ap
                      (λ m.
                        look_in_rows codec cache s wanted
                          (filter (λ r. any (bytes_eq r.hash) m) v.contents) found)
                      (sym some_left)
                    ∙ e'),
              sound',
              λ h b g. settled found' right' h b g (elim (cover h b (get_hash→In h b wanted g)) [
                | inl k ↦ inl (more h k)
                | inr i ↦ elim (Option-cases (stored v.contents h)) [
                  | inl n ↦ inr n
                  | inr (bytes, q) ↦
                      let (r, ir, same) = stored→In v.contents h bytes q in
                      let there : any (bytes_eq r.hash) missing ≡ true =
                        In→any (bytes_eq r.hash) missing h i ((bytes_eq_iff r.hash h).1 same) in
                      inl (
                        ap (λ x. is_some (get_hash x found')) (sym same)
                        ∙ all_rows r (
                            (In-filter (λ q. any (bytes_eq q.hash) missing) r v.contents).1
                              (ir, there)))
                ]
              ]),
            )
      ]
