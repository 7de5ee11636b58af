-- ===== src/Db/Stream/Batches.antt =====
-- GetTars without chunks, cache and cursor: what its stream sends is a recursion over the objects
-- and their contents.
use dateilager.Prelude.{
  ℕ, zero, suc, ◌+◌, ◌≤◌, ◌≡◌, refl, ap, sym, subst, true, false, All, ◌∙◌, Bool-cases, inl, inr,
  none, List, [], ◌∷◌, Bytes, arith, length, drop, take, map, if◌then◌else◌, ltb,
}
use dateilager.Result.{ok}
use dateilager.Codec.{Codec, TarEntry}
use dateilager.Db.Schema.{Tables}
use dateilager.Db.Session.{Session, calm}
use dateilager.Db.Query.{DbObject}
use dateilager.Db.Tar.{TarWriter, new_tar_writer, write_object, add_entry, tar_entry}
use dateilager.Db.Content.{MemoryCache, IsCache}
use dateilager.Db.Content.Sound.{IsKeyed, IsSound}
use dateilager.Db.Stream.{target_tar_size, to_tar_object, Cursor, row, next_row}
use dateilager.Db.Stream.Chunks.{IsLoadable, load_chunk_lem}
use dateilager.Db.Stream.Rows.{IsAhead, next_row_lem, next_row-end}
use dateilager.Db.Stream.Tars.{
  Tar, NextTar, tar, skip_tar, end_of_tars, failed_tar, write_row, next_tar, send_tars, tars_of,
  start_tars, write_or_skip, is_pack, after_call,
}

abbrev pub sent_before : NextTar → List Tar → List Tar
sent_before (tar a) rest = a ∷ rest
sent_before _ rest = rest

-- The last archive, if anything is left to write.
abbrev pub last_tar : Codec → TarWriter → List Tar
last_tar codec w =
    if ltb 0 w.size then record { bytes = codec.write_tar w.entries; pack_path = none } ∷ [] else []

unfoldable pub batches : Codec → (DbObject → Bytes) → TarWriter → List DbObject → List Tar
unfolding write_row
batches codec content w [] = last_tar codec w
batches codec content w (o ∷ os) =
    let (next, w') = write_row codec (row o (content o)) w in
    sent_before next (batches codec content w' os)

unfoldable pub entry_of : (DbObject → Bytes) → DbObject → TarEntry
entry_of content o = tar_entry (to_tar_object o (content o))

-- An object that is no pack has an entry that the archive takes.
abbrev pub IsTaken : Codec → (DbObject → Bytes) → DbObject → Type 0
IsTaken codec content o = is_pack o ≡ false → codec.takes (entry_of content o) ≡ true

pub write_row-entry :
    (codec : Codec) (content : DbObject → Bytes) (o : DbObject) (w : TarWriter)
    → is_pack o ≡ false
    → IsTaken codec content o
    → write_row codec (row o (content o)) w
      ≡ write_or_skip codec (add_entry (to_tar_object o (content o)) w)
unfolding write_row write_object entry_of
write_row-entry codec content o w e taken = rw (e, taken e, write_row, write_object) refl

-- A row is written or sent; it neither ends the stream nor fails.
abbrev IsGoing : NextTar → Type 0
IsGoing (tar _) = Unit
IsGoing skip_tar = Unit
IsGoing _ = ⊥

write_or_skip-IsGoing : (codec : Codec) (w : TarWriter) → IsGoing (write_or_skip codec w).0
write_or_skip-IsGoing codec w = elim (Bool-cases (ltb target_tar_size w.size)) [
  | inl e ↦ rw (e, write_or_skip) tt
  | inr e ↦ rw (e, write_or_skip) tt
]

after_call-IsGoing :
    {S : Type 0} (n : NextTar) (s s' : S) (t : Session) (sent : List Tar)
    → IsGoing n
    → after_call n s t (record { sent = sent; state = s'; outcome = ok tt }, t)
      ≡ (record { sent = sent_before n sent; state = s'; outcome = ok tt }, t)
after_call-IsGoing (tar a) s s' t sent g = refl
after_call-IsGoing skip_tar s s' t sent g = refl
after_call-IsGoing end_of_tars s s' t sent g = absurd g
after_call-IsGoing (failed_tar e) s s' t sent g = absurd g

write_row-IsGoing :
    (codec : Codec) (content : DbObject → Bytes) (o : DbObject) (w : TarWriter)
    → IsTaken codec content o
    → IsGoing (write_row codec (row o (content o)) w).0
unfolding write_row
write_row-IsGoing codec content o w taken = elim (Bool-cases (is_pack o)) [
  | inl e ↦ rw (e, write_row) tt
  | inr e ↦
      subst (λ x. IsGoing x.0) (sym (write_row-entry codec content o w e taken))
        (write_or_skip-IsGoing codec (add_entry (to_tar_object o (content o)) w))
]

module _ {S : Type 0} (codec : Codec) (cache : MemoryCache S) where
  send-end :
      (fuel : ℕ) (objects : List DbObject) (c : Cursor S) (w : TarWriter) (t : Session)
      → drop c.idx objects ≡ []
      → send_tars codec cache (suc (suc fuel)) objects c w t
        ≡ (record { sent = last_tar codec w; state = c.state; outcome = ok tt }, t)
  unfolding send_tars next_tar
  send-end fuel objects c w t d =
      let e = next_row-end codec cache objects c t d in
      elim (Bool-cases (ltb 0 w.size)) [
        | inl k ↦ rw (e, e, k, send_tars, next_tar) refl
        | inr k ↦ rw (e, k, send_tars, next_tar) refl
      ]

  send-row :
      (fuel : ℕ) (objects : List DbObject) (c c' : Cursor S) (w : TarWriter) (t : Session)
      (content : DbObject → Bytes) (o : DbObject) (s' : S) (sent : List Tar)
      → IsTaken codec content o
      → next_row codec cache objects c t ≡ ((row o (content o), c'), t)
      → send_tars codec cache fuel objects c' (write_row codec (row o (content o)) w).1 t
        ≡ (record { sent = sent; state = s'; outcome = ok tt }, t)
      → send_tars codec cache (suc fuel) objects c w t ≡ (
        record {
          sent = sent_before (write_row codec (row o (content o)) w).0 sent;
          state = s';
          outcome = ok tt;
        },
        t,
      )
  unfolding send_tars next_tar
  send-row fuel objects c c' w t content o s' sent taken e r =
      let (n, w') = write_row codec (row o (content o)) w in
      rw (e, send_tars, next_tar)
        (ap (after_call n c'.state t) r
          ∙ after_call-IsGoing n c'.state s' t sent (write_row-IsGoing codec content o w taken))

  send_tars_lem :
      (v t : Tables) (objects : List DbObject) (content : DbObject → Bytes)
      → IsCache cache
      → IsKeyed v.contents
      → IsLoadable codec v.contents objects content
      → (rest : List DbObject) (fuel : ℕ) (c : Cursor S) (w : TarWriter) → length rest ≤ fuel
      → All (IsTaken codec content) rest
      → IsSound codec cache v.contents c.state
      → drop c.idx objects ≡ rest
      → IsAhead codec cache content rest c
      → (s' : S) × (send_tars codec cache (suc (suc fuel)) objects c w (calm v t)
          ≡ (record { sent = batches codec content w rest; state = s'; outcome = ok tt }, calm v t))
        × IsSound codec cache v.contents s'
  unfolding batches write_row
  send_tars_lem v t objects content law keyed l [] fuel c w f taken sound d a =
      (c.state, send-end fuel objects c w (calm v t) d, sound)
  send_tars_lem v t objects content law keyed l (o ∷ rest) zero c w f taken sound d a =
      let no : ⊥ = omega arith in absurd no
  send_tars_lem v t objects content law keyed l (o ∷ rest) (suc fuel) c w f taken sound d a =
      let (c', e, d', a', sound') =
        next_row_lem codec cache v t objects content c o rest law keyed l sound d a in
      let (s', r, sound'') =
        send_tars_lem v t objects content law keyed l rest fuel c'
          (write_row codec (row o (content o)) w).1 (omega arith) taken.1 sound' d' a' in
      (
        s',
        send-row (suc (suc fuel)) objects c c' w (calm v t) content o s'
            (batches codec content (write_row codec (row o (content o)) w).1 rest) taken.0 e r,
        sound'',
      )

  -- The stream of GetTars, read to its end.
  pub tars_of-batches :
      (v t : Tables) (objects : List DbObject) (content : DbObject → Bytes) (s : S)
      → IsCache cache
      → IsKeyed v.contents
      → IsLoadable codec v.contents objects content
      → IsSound codec cache v.contents s
      → All (IsTaken codec content) objects
      → (s' : S) × (tars_of codec cache s objects (calm v t) ≡ (
        record { sent = batches codec content new_tar_writer objects; state = s'; outcome = ok tt },
        calm v t,
      ))
        × IsSound codec cache v.contents s'
  unfolding tars_of
  tars_of-batches v t objects content s law keyed l sound taken =
      let (s1, e, sound1) = load_chunk_lem codec cache v t objects content s 0 law keyed l sound in
      let (s', r, sound') =
        send_tars_lem v t objects content law keyed l objects (length objects)
          (record { idx = 0; chunk_idx = 0; chunk = map content (take 200 objects); state = s1 })
          new_tar_writer (omega arith) taken sound1 refl (200, refl) in
      let fuel_eq : length objects + 2 ≡ suc (suc (length objects)) = omega arith in
      (
        s',
        ap (start_tars codec cache objects) e
            ∙ ap
                (λ fuel.
                  send_tars codec cache fuel objects
                    (record {
                      idx = 0;
                      chunk_idx = 0;
                      chunk = map content (take 200 objects);
                      state = s1;
                    })
                    new_tar_writer (calm v t))
                fuel_eq
            ∙ r,
        sound',
      )
