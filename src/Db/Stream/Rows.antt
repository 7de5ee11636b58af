-- ===== src/Db/Stream/Rows.antt =====
-- The rows of a stream: each one comes with its own content, however they are cut into chunks.
use dateilager.Prelude.{
  ℕ, zero, suc, ◌≤◌, ◌≡◌, refl, ap, ◌∙◌, ◌⊎◌, ◌≢◌, true, false, List, [], ◌∷◌, map, Bytes,
  Bool-cases, inl, inr, arith, if◌then◌else◌, length, take, drop, leb,
}
use dateilager.Result.{ok}
use dateilager.Codec.{Codec}
use dateilager.Db.Schema.{Tables}
use dateilager.Db.Session.{Session, calm}
use dateilager.Db.Query.{DbObject}
use dateilager.Db.Content.{MemoryCache, IsCache}
use dateilager.Db.Content.Sound.{IsKeyed, IsSound}
use dateilager.Db.Stream.{
  load_chunk, chunk_size, Cursor, Row, row, no_row, next_row, take_row, reload_row,
}
use dateilager.Db.Stream.Chunks.{IsLoadable, load_chunk_lem}

drop_next :
    {A : Type 0} (n : ℕ) (xs : List A) (x : A) (rest : List A)
    → drop n xs ≡ x ∷ rest
    → drop (suc n) xs ≡ rest
drop_next zero [] x rest e = cc
drop_next zero (y ∷ xs) x rest e = cc e
drop_next (suc n) [] x rest e = cc
drop_next (suc n) (y ∷ xs) x rest e = drop_next n xs x rest e

drop_short : {A : Type 0} (n : ℕ) (xs : List A) → drop n xs ≡ [] → length xs ≤ n
drop_short zero [] e = omega arith
drop_short zero (x ∷ xs) e = cc
drop_short (suc n) [] e = omega arith
drop_short (suc n) (x ∷ xs) e = let r = drop_short n xs e in omega arith

take-cases :
    (content : DbObject → Bytes) (k : ℕ) (o : DbObject) (rest : List DbObject)
    → (map content (take k (o ∷ rest)) ≡ [])
      ⊎ ((j : ℕ) × (map content (take k (o ∷ rest)) ≡ content o ∷ map content (take j rest)))
take-cases content zero o rest = inl refl
take-cases content (suc k) o rest = inr (k, refl)

ahead : (n : ℕ) (xs : List Bytes) → leb (length xs) n ≡ false → drop n xs ≢ []
ahead n xs e d = let s = drop_short n xs d in let no : ⊥ = ground arith in no

module _ {S : Type 0} (codec : Codec) (cache : MemoryCache S) where
  -- The chunk of a cursor holds the contents of the next rows.
  abbrev pub IsAhead : (DbObject → Bytes) → List DbObject → Cursor S → Type 0
  IsAhead content rest c = (k : ℕ) × (drop c.chunk_idx c.chunk ≡ map content (take k rest))

  next_row-reload :
      (objects : List DbObject) (c : Cursor S) (o : DbObject) (rest : List DbObject) (t : Session)
      → drop c.idx objects ≡ o ∷ rest
      → leb (length c.chunk) c.chunk_idx ≡ true
      → next_row codec cache objects c t
        ≡ reload_row codec cache o c.idx (load_chunk codec cache c.state objects c.idx t)
  unfolding next_row
  next_row-reload objects c o rest t d e =
      ap
        (λ rows. elim rows as (λ _. (Row × Cursor S) × Session) [
          | [] ↦ ((no_row, c), t)
          | q ∷ _ ↦
              if leb (length c.chunk) c.chunk_idx
              then reload_row codec cache q c.idx (load_chunk codec cache c.state objects c.idx t)
              else (take_row codec cache q c, t)
        ])
        d
      ∙ ap
          (λ b.
            if b
            then reload_row codec cache o c.idx (load_chunk codec cache c.state objects c.idx t)
            else (take_row codec cache o c, t))
          e

  next_row-keep :
      (objects : List DbObject) (c : Cursor S) (o : DbObject) (rest : List DbObject) (t : Session)
      → drop c.idx objects ≡ o ∷ rest
      → leb (length c.chunk) c.chunk_idx ≡ false
      → next_row codec cache objects c t ≡ (take_row codec cache o c, t)
  unfolding next_row
  next_row-keep objects c o rest t d e = rw (d, e, next_row) refl

  take_row-content :
      (o : DbObject) (c : Cursor S) (bytes : Bytes) (others : List Bytes)
      → drop c.chunk_idx c.chunk ≡ bytes ∷ others
      → take_row codec cache o c
        ≡ (row o bytes, record c { idx = suc c.idx; chunk_idx = suc c.chunk_idx })
  take_row-content o c bytes others h = rw (h, take_row) refl

  -- The next row of a stream comes with its content.
  pub next_row_lem :
      (v t : Tables) (objects : List DbObject) (content : DbObject → Bytes) (c : Cursor S)
      (o : DbObject) (rest : List DbObject)
      → IsCache cache
      → IsKeyed v.contents
      → IsLoadable codec v.contents objects content
      → IsSound codec cache v.contents c.state
      → drop c.idx objects ≡ o ∷ rest
      → IsAhead content (o ∷ rest) c
      → (c' : Cursor S) × (next_row codec cache objects c (calm v t)
          ≡ ((row o (content o), c'), calm v t))
        × (drop c'.idx objects ≡ rest)
        × IsAhead content rest c'
        × IsSound codec cache v.contents c'.state
  unfolding next_row
  next_row_lem v t objects content c o rest law keyed l sound d (k, a) =
      elim (Bool-cases (leb (length c.chunk) c.chunk_idx)) [
        | inl e ↦
            let (s', q, sound') =
              load_chunk_lem codec cache v t objects content c.state c.idx law keyed l sound in
            (
              record {
                idx = suc c.idx;
                chunk_idx = 1;
                chunk = map content (take chunk_size (o ∷ rest));
                state = s';
              },
              next_row-reload objects c o rest (calm v t) d e
                  ∙ ap (reload_row codec cache o c.idx)
                      (q ∙ ap (λ os. ((s', ok (map content (take chunk_size os))), calm v t)) d),
              drop_next c.idx objects o rest d,
              (199, refl),
              sound',
            )
        | inr e ↦ elim (take-cases content k o rest) [
          | inl n ↦ absurd (ahead c.chunk_idx c.chunk e (a ∙ n))
          | inr (k', m) ↦ (
            record c { idx = suc c.idx; chunk_idx = suc c.chunk_idx },
            next_row-keep objects c o rest (calm v t) d e
                ∙ ap (λ r. (r, calm v t))
                    (take_row-content o c (content o) (map content (take k' rest)) (a ∙ m)),
            drop_next c.idx objects o rest d,
            (k', drop_next c.chunk_idx c.chunk (content o) (map content (take k' rest)) (a ∙ m)),
            sound,
          )
        ]
      ]

  -- After the last row the stream ends.
  pub next_row-end :
      (objects : List DbObject) (c : Cursor S) (t : Session)
      → drop c.idx objects ≡ []
      → next_row codec cache objects c t ≡ ((no_row, c), t)
  unfolding next_row
  next_row-end objects c t d = rw (d, next_row) refl
