-- ===== src/Db/Stream/Complete.antt =====
-- GetTars as a client sees it: what its archives hold, how large they are, and what it leaves behind.
use dateilager.Prelude.{◌≡◌, refl, ap, sym, ◌∙◌, List, Bytes, arith, map, filter, All, subst}
use dateilager.Result.{ok}
use dateilager.Codec.{Codec, IsLawful}
use dateilager.Db.Schema.{Tables}
use dateilager.Db.Session.{calm}
use dateilager.Db.Query.{DbObject}
use dateilager.Db.Tar.{new_tar_writer}
use dateilager.Db.Content.{MemoryCache, IsCache}
use dateilager.Db.Content.Sound.{IsKeyed, IsSound}
use dateilager.Db.Stream.Chunks.{IsLoadable}
use dateilager.Db.Stream.Tars.{is_pack, tars_of}
use dateilager.Db.Stream.Batches.{tars_of-batches, IsTaken}
use dateilager.Db.Stream.Received.{
  packs_of, entries_of, sizes, IsBounded, HasPath, archived, packs_of-batches, entries_of-batches,
}

module _ {S : Type 0} (codec : Codec) (cache : MemoryCache S) where
  -- GetTars, its stream read to the end, with a lawful archive format and a cache that is sound for
  -- the table of contents, where each object has its content, a path and an entry that the archive
  -- takes: it does not fail and does
  -- not run out of fuel; the responses with a path are the packs, in their order, with the contents
  -- stored for them; and the entries read from the other archives, one after another, are those of
  -- the other objects, each once and in their order, whatever the chunks and the cache.
  pub tars_of-read :
      (v t : Tables) (objects : List DbObject) (content : DbObject → Bytes) (s : S)
      → IsLawful codec
      → IsCache cache
      → IsKeyed v.contents
      → IsLoadable codec v.contents objects content
      → IsSound codec cache v.contents s
      → All HasPath objects
      → All (IsTaken codec content) objects
      → ((tars_of codec cache s objects (calm v t)).0.outcome ≡ ok tt)
        × (packs_of (tars_of codec cache s objects (calm v t)).0.sent
            ≡ map (λ o. (o.path, content o)) (filter is_pack objects))
        × (entries_of codec (tars_of codec cache s objects (calm v t)).0.sent
            ≡ ok (archived content objects))
  unfolding sizes
  tars_of-read v t objects content s lawful law keyed l sound p taken =
      let (s', e, _) = tars_of-batches codec cache v t objects content s law keyed l sound taken in
      let r =
        entries_of-batches codec lawful content objects new_tar_writer p taken
          (refl, omega arith, tt) in
      (
        ap (λ r. r.0.outcome) e,
        ap (λ r. packs_of r.0.sent) e
            ∙ packs_of-batches codec lawful content objects new_tar_writer taken,
        ap (λ r. entries_of codec r.0.sent) e ∙ r.0,
      )

  -- Each archive of GetTars that is not a pack holds at least one entry, and without its last entry
  -- its names and contents are at most 512 KiB; for a lawful archive format, a sound cache, and
  -- objects that have their contents, paths, and entries that the archive takes.
  pub tars_of-IsBounded :
      (v t : Tables) (objects : List DbObject) (content : DbObject → Bytes) (s : S)
      → IsLawful codec
      → IsCache cache
      → IsKeyed v.contents
      → IsLoadable codec v.contents objects content
      → IsSound codec cache v.contents s
      → All HasPath objects
      → All (IsTaken codec content) objects
      → All (IsBounded codec) (tars_of codec cache s objects (calm v t)).0.sent
  unfolding sizes
  tars_of-IsBounded v t objects content s lawful law keyed l sound p taken =
      let (s', e, _) = tars_of-batches codec cache v t objects content s law keyed l sound taken in
      let r =
        entries_of-batches codec lawful content objects new_tar_writer p taken
          (refl, omega arith, tt) in
      subst (λ r. All (IsBounded codec) r.0.sent) (sym e) r.1

  -- GetTars leaves the shared cache sound for the table of contents, and changes neither what the
  -- transaction sees nor what is committed, for objects that have their
  -- contents, and entries that the archive takes.
  pub tars_of-IsSound :
      (v t : Tables) (objects : List DbObject) (content : DbObject → Bytes) (s : S)
      → IsCache cache
      → IsKeyed v.contents
      → IsLoadable codec v.contents objects content
      → IsSound codec cache v.contents s
      → All (IsTaken codec content) objects
      → IsSound codec cache v.contents (tars_of codec cache s objects (calm v t)).0.state
        × ((tars_of codec cache s objects (calm v t)).1 ≡ calm v t)
  tars_of-IsSound v t objects content s law keyed l sound taken =
      let (s', e, sound') =
        tars_of-batches codec cache v t objects content s law keyed l sound taken in
      (subst (λ r. IsSound codec cache v.contents r.0.state) (sym e) sound', ap (λ r. r.1) e)
