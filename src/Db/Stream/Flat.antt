-- ===== src/Db/Stream/Flat.antt =====
-- GetObjects as a client sees it: the objects of the rows, with the packs opened, in one list.
use dateilager.Prelude.{
  ℕ, suc, ◌-◌, ◌<◌, ◌≡◌, refl, subst, ap, sym, ◌∙◌, true, false, List, [], ◌∷◌, ◌++◌, Bytes, arith,
  length, take, map, filter, All, append-nil,
}
use dateilager.Result.{ok, err, panic}
use dateilager.Codec.{Codec, IsLawful}
use dateilager.Db.Schema.{Tables}
use dateilager.Db.Session.{calm}
use dateilager.Db.Query.{DbObject, ObjectQuery}
use dateilager.Db.Content.{MemoryCache, IsCache}
use dateilager.Db.Content.Sound.{IsKeyed, IsSound}
use dateilager.Db.Stream.{Cursor}
use dateilager.Db.Stream.Chunks.{IsLoadable, load_chunk_lem}
use dateilager.Db.Stream.Rows.{next_row_lem}
use dateilager.Db.Stream.Objects.{send_objects, start_objects, objects_of}
use dateilager.Db.Stream.Unpacked.{
  is_match, flat, IsReadable, calls, calls-length, before, send-front, send-end, send-panic,
}

module _ {S : Type 0} (codec : Codec) (cache : MemoryCache S) (path : Bytes)
    (query : ObjectQuery) where
  -- GetObjects, its stream read to the end: with a call for each object and one more, it neither
  -- fails nor runs out of fuel, and returns exactly the objects of the rows, those of packs among
  -- them, in order, that lie under the path, or at it; where each row has its content, none is
  -- cached, and each pack opens and holds an object. The cache stays sound, and the tables stay.
  pub objects_of-flat :
      (v t : Tables) (objects : List DbObject) (content : DbObject → Bytes) (s : S) (fuel : ℕ)
      → IsCache cache
      → IsKeyed v.contents
      → IsLoadable codec v.contents objects content
      → IsSound codec cache v.contents s
      → All (IsReadable codec content) objects
      → length (flat codec content objects) < fuel
      → ((objects_of codec cache path query fuel s objects (calm v t)).0.outcome ≡ ok tt)
        × ((objects_of codec cache path query fuel s objects (calm v t)).0.sent
            ≡ filter (is_match path query) (flat codec content objects))
        × IsSound codec cache v.contents
            (objects_of codec cache path query fuel s objects (calm v t)).0.state
        × ((objects_of codec cache path query fuel s objects (calm v t)).1 ≡ calm v t)
  unfolding objects_of
  objects_of-flat v t objects content s fuel law keyed l sound h b =
      let (s1, e, sound1) = load_chunk_lem codec cache v t objects content s 0 law keyed l sound in
      let c : Cursor S = record {
        idx = 0;
        chunk_idx = 0;
        chunk = map content (take 200 objects);
        state = s1;
      } in
      let extra = fuel - length (flat codec content objects) - 1 in
      let all_rows : objects ≡ objects ++ [] = sym (append-nil objects) in
      let (c', r, d', a', sound') =
        send-front codec cache path query v t objects content law keyed l objects [] (suc extra) c h
          sound1 all_rows (200, ap (λ os. map content (take 200 os)) all_rows) in
      let n = calls-length (flat codec content objects) (suc extra) in
      let enough : fuel ≡ calls (flat codec content objects) (suc extra) = omega arith in
      let found = filter (is_match path query) (flat codec content objects) in
      let whole : objects_of codec cache path query fuel s objects (calm v t)
          ≡ (record { sent = found; state = c'.state; outcome = ok tt }, calm v t) =
        ap (start_objects codec cache path query fuel objects) e
        ∙ ap (λ m. send_objects codec cache path query m objects c [] (calm v t)) enough
        ∙ r
        ∙ ap (before found) (send-end codec cache path query extra objects c' (calm v t) d')
        ∙ ap (λ os. (record { sent = os; state = c'.state; outcome = ok tt }, calm v t))
            (append-nil found) in
      (
        ap (λ x. x.0.outcome) whole,
        ap (λ x. x.0.sent) whole,
        subst (λ x. IsSound codec cache v.contents x.0.state) (sym whole) sound',
        ap (λ x. x.1) whole,
      )

  -- GetObjects, its stream read on, when a pack without content comes after rows that can be read:
  -- after the objects of those rows the stream panics, for a lawful archive format. A pack that was
  -- removed in the version range is such a row, since it is reported with the zero hash.
  pub objects_of-panic :
      (v t : Tables) (front : List DbObject) (o : DbObject) (back : List DbObject)
      (content : DbObject → Bytes) (s : S) (fuel : ℕ)
      → IsLawful codec
      → IsCache cache
      → IsKeyed v.contents
      → IsLoadable codec v.contents (front ++ o ∷ back) content
      → IsSound codec cache v.contents s
      → All (IsReadable codec content) front
      → o.cached ≡ false
      → o.packed ≡ true
      → content o ≡ []
      → length (flat codec content front) < fuel
      → ((objects_of codec cache path query fuel s (front ++ o ∷ back) (calm v t)).0.outcome
          ≡ err panic)
        × ((objects_of codec cache path query fuel s (front ++ o ∷ back) (calm v t)).0.sent
            ≡ filter (is_match path query) (flat codec content front))
  unfolding objects_of
  objects_of-panic v t front o back content s fuel lawful law keyed l sound h u p z b =
      let objects = front ++ o ∷ back in
      let (s1, e, sound1) = load_chunk_lem codec cache v t objects content s 0 law keyed l sound in
      let c : Cursor S = record {
        idx = 0;
        chunk_idx = 0;
        chunk = map content (take 200 objects);
        state = s1;
      } in
      let extra = fuel - length (flat codec content front) - 1 in
      let (c', r, d', a', sound') =
        send-front codec cache path query v t objects content law keyed l front (o ∷ back)
          (suc extra) c h sound1 refl (200, refl) in
      let (c2, e2, _, _, _) =
        next_row_lem codec cache v t objects content c' o back law keyed l sound' d' a' in
      let n = calls-length (flat codec content front) (suc extra) in
      let enough : fuel ≡ calls (flat codec content front) (suc extra) = omega arith in
      let found = filter (is_match path query) (flat codec content front) in
      let whole : objects_of codec cache path query fuel s objects (calm v t)
          ≡ (record { sent = found; state = c2.state; outcome = err panic }, calm v t) =
        ap (start_objects codec cache path query fuel objects) e
        ∙ ap (λ m. send_objects codec cache path query m objects c [] (calm v t)) enough
        ∙ r
        ∙ ap (before found) (
            send-panic codec cache path query extra objects c' c2 (calm v t) o (content o) lawful e2
              u p z)
        ∙ ap (λ os. (record { sent = os; state = c2.state; outcome = err panic }, calm v t))
            (append-nil found) in
      (ap (λ x. x.0.outcome) whole, ap (λ x. x.0.sent) whole)
