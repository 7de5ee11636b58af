-- ===== src/Api/Fs/Read/Served.antt =====
-- pkg/api/fs.go: what the reading handlers answer, and to whom they do not.
use dateilager.Prelude.{
  ◌≡◌, refl, inl, inr, ap, sym, ◌∙◌, Option, List, [], ◌∷◌, map, append-nil, ℤ, Bytes, All, filter,
}
use dateilager.Result.{Result-cases, ok}
use dateilager.Codec.{Codec, IsLawful}
use dateilager.Auth.{Auth, require_project_auth, check_project}
use dateilager.Auth.Access.{may_read}
use dateilager.Db.Schema.{Tables}
use dateilager.Db.Session.{Session, calm, close, lift, connect, catch, on_error}
use dateilager.Db.Session
use dateilager.Db.Query.{ObjectQuery, VersionRange, DbObject, build}
use dateilager.Db.Tar.{new_tar_writer}
use dateilager.Db.Content.{MemoryCache, IsCache}
use dateilager.Db.Content.Sound.{IsKeyed, IsSound}
use dateilager.Db.Stream.{new_version_range, execute_query}
use dateilager.Db.Stream.Chunks.{IsLoadable}
use dateilager.Db.Stream.Tars.{Tar, Sent, is_pack, tars_of}
use dateilager.Db.Stream.Batches.{batches, tars_of-batches, IsTaken}
use dateilager.Db.Stream.Received.{packs_of, entries_of, HasPath, archived}
use dateilager.Db.Stream.Complete.{tars_of-read}
use dateilager.Api.Fs.Read.{
  validate_object_query, as_internal, given_up, go_on, open_range, send_queries, stamped,
  serve_tars, get_compress, finish,
}

open_range-granted :
    (auth : Auth) (project : ℤ) (from to : Option ℤ) (vrange : VersionRange) (v t : Tables)
    → may_read auth project ≡ ok tt
    → new_version_range project from to (calm t t) ≡ (ok vrange, calm t t)
    → open_range auth project from to (calm v t) ≡ (ok vrange, calm t t)
unfolding open_range may_read lift Session.◌>>=◌ connect catch
open_range-granted auth project from to vrange v t h r =
    elim (Result-cases (require_project_auth auth)) [
      | inl (own, q) ↦
          let c : check_project own project ≡ ok tt = rw (q, may_read) at h in
          rw (q, open_range) (rw (c, open_range) (rw r refl))
      | inr (e', q) ↦ cc (rw (q, may_read) at h)
    ]

abbrev pub rows_for : ℤ → VersionRange → List ℤ → ObjectQuery → Tables → List DbObject
rows_for project vrange cache_versions query = build (record {
  project = project;
  vrange = vrange;
  object_query = query;
  cache_versions = cache_versions;
})

map-stamped :
    (version : ℤ) (tars : List Tar)
    → map (λ (a : ℤ × Tar). a.1) (map (λ a. (version, a)) tars) ≡ tars
map-stamped version [] = refl
map-stamped version (a ∷ tars) = ap (λ more. a ∷ more) (map-stamped version tars)

All-stamped :
    (version : ℤ) (tars : List Tar)
    → All (λ (a : ℤ × Tar). a.0 ≡ version) (map (λ a. (version, a)) tars)
All-stamped version [] = tt
All-stamped version (a ∷ tars) = (refl, All-stamped version tars)

module _ {S : Type 0} (codec : Codec) (cache : MemoryCache S) (auth : Auth) where
  serve_tars-batches :
      (project : ℤ) (cache_versions : List ℤ) (vrange : VersionRange) (query : ObjectQuery)
      (t : Tables) (content : DbObject → Bytes) (s : S)
      → validate_object_query query ≡ ok tt
      → IsCache cache
      → IsKeyed t.contents
      → IsLoadable codec t.contents (rows_for project vrange cache_versions query t) content
      → IsSound codec cache t.contents s
      → All (IsTaken codec content) (rows_for project vrange cache_versions query t)
      → (s' : S) × (serve_tars codec cache auth project cache_versions vrange s query (calm t t) ≡ (
        record {
          sent =
              batches codec content new_tar_writer (rows_for project vrange cache_versions query t);
          state = s';
          outcome = ok tt;
        },
        calm t t,
      ))
        × IsSound codec cache t.contents s'
  unfolding serve_tars execute_query Session.exec
  serve_tars-batches project cache_versions vrange query t content s valid law keyed l sound taken =
      let rows = rows_for project vrange cache_versions query t in
      let (s', e, sound') =
        tars_of-batches codec cache t t rows content s law keyed l sound taken in
      (s', rw (valid, serve_tars) (ap as_internal e), sound')

  get_compress-batches :
      (project : ℤ) (from to : Option ℤ) (cache_versions : List ℤ) (vrange : VersionRange)
      (query : ObjectQuery) (v t : Tables) (content : DbObject → Bytes) (s : S)
      → may_read auth project ≡ ok tt
      → new_version_range project from to (calm t t) ≡ (ok vrange, calm t t)
      → validate_object_query query ≡ ok tt
      → IsCache cache
      → IsKeyed t.contents
      → IsLoadable codec t.contents (rows_for project vrange cache_versions query t) content
      → IsSound codec cache t.contents s
      → All (IsTaken codec content) (rows_for project vrange cache_versions query t)
      → (s' : S) × (get_compress codec cache auth s project from to
            (query ∷ [])
            cache_versions
            (calm v t)
          ≡ (
            record {
              sent =
                  map
                    (λ a. (vrange.to, a))
                    (batches codec content new_tar_writer
                      (rows_for project vrange cache_versions query t));
              state = s';
              outcome = ok tt;
            },
            calm t t,
          ))
  unfolding get_compress send_queries
  get_compress-batches project from to cache_versions vrange query v t content s may range valid law
        keyed l sound taken =
      let tars =
        batches codec content new_tar_writer (rows_for project vrange cache_versions query t) in
      let serve : VersionRange → Session → Sent S (ℤ × Tar) × Session = λ vr u.
        stamped vr.to
          (send_queries (serve_tars codec cache auth project cache_versions vr) s (query ∷ []) u) in
      let (s', e, _) =
        serve_tars-batches project cache_versions vrange query t content s valid law keyed l sound
          taken in
      (
        s',
        ap (finish s serve) (open_range-granted auth project from to vrange v t may range)
            ∙ ap
                (λ r. given_up (
                  stamped vrange.to (
                    go_on
                      (λ s2 u.
                        send_queries (serve_tars codec cache auth project cache_versions vrange) s2
                          [] u)
                      r)))
                e
            ∙ ap
                (λ more. (
                  record { sent = map (λ a. (vrange.to, a)) more; state = s'; outcome = ok tt },
                  calm t t,
                ))
                (append-nil tars),
      )

  -- A client that may read the project, and whose query is valid, gets from GetCompress, when no
  -- statement fails: a stream that ends without an error, each response with the version at the
  -- end of the range; the packs that the range's query selects, with their contents, in order;
  -- and archives whose entries are those of the other selected objects, in order. What is
  -- committed stays. The archive format is lawful, the cache sound, and each selected object has
  -- its content, a path, and an entry that the archive takes.
  pub get_compress-read :
      (project : ℤ) (from to : Option ℤ) (cache_versions : List ℤ) (vrange : VersionRange)
      (query : ObjectQuery) (v t : Tables) (content : DbObject → Bytes) (s : S)
      → IsLawful codec
      → may_read auth project ≡ ok tt
      → new_version_range project from to (calm t t) ≡ (ok vrange, calm t t)
      → validate_object_query query ≡ ok tt
      → IsCache cache
      → IsKeyed t.contents
      → IsLoadable codec t.contents (rows_for project vrange cache_versions query t) content
      → IsSound codec cache t.contents s
      → All (IsTaken codec content) (rows_for project vrange cache_versions query t)
      → All HasPath (rows_for project vrange cache_versions query t)
      → (r : Sent S (ℤ × Tar)) × (get_compress codec cache auth s project from to
            (query ∷ [])
            cache_versions
            (calm v t)
          ≡ (r, calm t t))
        × (r.outcome ≡ ok tt)
        × All (λ a. a.0 ≡ vrange.to) r.sent
        × (packs_of (map (λ a. a.1) r.sent)
            ≡ map
                (λ o. (o.path, content o))
                (filter is_pack (rows_for project vrange cache_versions query t)))
        × (entries_of codec (map (λ a. a.1) r.sent)
            ≡ ok (archived content (rows_for project vrange cache_versions query t)))
  get_compress-read project from to cache_versions vrange query v t content s lawful may range valid
        law keyed l sound taken paths =
      let rows = rows_for project vrange cache_versions query t in
      let tars = batches codec content new_tar_writer rows in
      let (s', e) =
        get_compress-batches project from to cache_versions vrange query v t content s may range
          valid law keyed l sound taken in
      let (s2, e2, _) = tars_of-batches codec cache t t rows content s law keyed l sound taken in
      let read = tars_of-read codec cache t t rows content s lawful law keyed l sound paths taken in
      let same : (tars_of codec cache s rows (calm t t)).0.sent ≡ tars = ap (λ r. r.0.sent) e2 in
      (
        record { sent = map (λ a. (vrange.to, a)) tars; state = s'; outcome = ok tt },
        e,
        refl,
        All-stamped vrange.to tars,
        ap packs_of (map-stamped vrange.to tars ∙ sym same) ∙ read.1,
        ap (entries_of codec) (map-stamped vrange.to tars ∙ sym same) ∙ read.2,
      )
