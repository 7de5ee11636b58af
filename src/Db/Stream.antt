-- ===== src/Db/Stream.antt =====
-- The streams of internal/db/query.go: the objects of a version range, one by one or in archives.
--
-- The variables that the closures of GetObjects and GetTars share are the record Cursor, since both
-- load the contents of their rows in chunks with the same statements.
pub mod Tars
pub mod Objects
pub mod Keys
pub mod Chunks
pub mod Rows
pub mod Batches
pub mod Received
pub mod Complete
pub mod Unpacked
pub mod Flat
use dateilager.Prelude.{
  ℕ, zero, suc, ◌+◌, ◌*◌, ◌≡◌, Bool, true, false, not, ◌&&◌, Option, none, some, List, [], ◌∷◌,
  ◌++◌, map, ℤ, pos, Bytes, bytes_eq, length, take, drop, has_prefix, leb, ltb, if◌then◌else◌,
}
use dateilager.Result.{Error, Result, ok, err, panic, cached_object, out_of_fuel, ◌>>=◌}
use dateilager.Codec.{TarEntry, Codec}
use dateilager.Db.Schema.{Hash, Tables}
use dateilager.Db.Session.{Tx, Session, exec, pure}
use dateilager.Db.Session
use dateilager.Db.Query.{DbObject, ObjectQuery, QueryBuilder, VersionRange, build}
use dateilager.Db.Project.{get_latest_version}
use dateilager.Db.Pack.{is_path_packed}
use dateilager.Db.Update.{Object}
use dateilager.Db.Tar.{
  TarObject, TarWriter, new_tar_writer, write_object, bytes_and_reset, object_from_tar_header, Next,
  object, skip, end_of_stream, failed,
}
use dateilager.Db.Content.{MemoryCache, HashMap, put_hash, get_hash, lookup}

-- TargetTarSize and chunkSize
abbrev pub target_tar_size : ℕ
target_tar_size = 512 * 1024

abbrev pub chunk_size : ℕ
chunk_size = 200

-- ToTarObject
unfoldable pub to_tar_object : DbObject → Bytes → TarObject
to_tar_object d content = record {
  path = d.path;
  mode = d.mode;
  deleted = d.deleted;
  cached = d.cached;
  content = if d.cached then d.hash else content;
}

-- NewVersionRange
unfoldable pub new_version_range : ℤ → Option ℤ → Option ℤ → Tx VersionRange
new_version_range project from to =
    let first : ℤ = elim from [ none ↦ pos 0 | some v ↦ v ] in
    elim to [
      | some v ↦ pure (record { from = first; to = v })
      | none ↦
          Session.◌>>=◌ (get_latest_version project) (λ v. pure (record { from = first; to = v }))
    ]

-- unpackObjects
unfoldable pub unpack_objects : Codec → Bytes → Result (List Object)
unpack_objects codec bytes = do
  entries ← codec.read_tar bytes
  ok (map object_from_tar_header entries)

-- filterObject
unfoldable pub filter_object : Bytes → ObjectQuery → Object → Next
filter_object path query o =
    if query.is_prefix && has_prefix o.path path
    then object o
    else if bytes_eq o.path path
    then object o
    else skip

-- executeQuery
unfoldable pub execute_query : QueryBuilder → Tx (List DbObject)
execute_query builder = exec (λ t. ok (build builder t, t))

-- The keys of loadChunk.
unfoldable pub wanted_hashes : HashMap Bool → List DbObject → HashMap Bool
wanted_hashes wanted [] = wanted
wanted_hashes wanted (o ∷ os) =
    wanted_hashes (if o.cached then wanted else put_hash o.hash (not o.packed) wanted) os

-- What loadChunk appends for an object: a hash without a content reads nil.
abbrev pub loaded_content : HashMap Bytes → DbObject → Bytes
loaded_content contents o =
    if o.cached then o.hash else elim (get_hash o.hash contents) [ none ↦ [] | some bytes ↦ bytes ]

-- idx, chunkIdx, chunk, and the shared cache
pub record Cursor (S : Type 0) : Type 0 where
  pub idx : ℕ
  pub chunk_idx : ℕ
  pub chunk : List Bytes
  pub state : S

-- The next row with its content, or nothing after the last one.
pub data Row : Type 0 where
  no_row : Row
  bad_row : Error → Row
  row : DbObject → Bytes → Row

module _ {S : Type 0} (codec : Codec) (cache : MemoryCache S) where
  -- loadChunk, for the objects from an index
  unfoldable pub load_chunk : S → List DbObject → ℕ → Session → (S × Result (List Bytes)) × Session
  unfolding wanted_hashes lookup
  load_chunk s objects start t =
      let chunk = take chunk_size (drop start objects) in
      let ((s', found), t') = lookup codec cache s (wanted_hashes [] chunk) t in
      ((s', found >>= λ contents. ok (map (loaded_content contents) chunk)), t')

  abbrev pub take_row : DbObject → Cursor S → Row × Cursor S
  take_row o c = elim (drop c.chunk_idx c.chunk) [
    | [] ↦ (bad_row panic, record c { idx = suc c.idx; chunk_idx = suc c.chunk_idx })
    | content ∷ _ ↦ (row o content, record c { idx = suc c.idx; chunk_idx = suc c.chunk_idx })
  ]

  abbrev pub reload_row :
      DbObject → ℕ → (S × Result (List Bytes)) × Session → (Row × Cursor S) × Session
  reload_row o idx ((s, err e), t) =
      ((bad_row e, record { idx = idx; chunk_idx = 0; chunk = []; state = s }), t)
  reload_row o idx ((s, ok chunk), t) =
      (take_row o (record { idx = idx; chunk_idx = 0; chunk = chunk; state = s }), t)

  -- From `idx >= len(dbObjects)` to `chunkIdx += 1`, in both streams.
  unfoldable pub next_row : List DbObject → Cursor S → Session → (Row × Cursor S) × Session
  unfolding load_chunk
  next_row objects c t = elim (drop c.idx objects) [
    | [] ↦ ((no_row, c), t)
    | o ∷ _ ↦
        if leb (length c.chunk) c.chunk_idx
        then reload_row o c.idx (load_chunk c.state objects c.idx t)
        else (take_row o c, t)
  ]
