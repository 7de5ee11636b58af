-- ===== src/Db/Schema.antt =====
-- migrations/*.up.sql: the tables after the last migration, their keys and unique indexes.
--
-- A table is a list of rows; no statement depends on their order, but for an ORDER BY.
-- `pack_patterns` that is NULL reads as the empty array, as every use of the column does.
pub mod Unique
use dateilager.Prelude.{
  Bool, true, false, not, ◌&&◌, Option, none, some, List, [], ◌∷◌, map, ℤ, eqb_ℤ, Bytes, bytes_eq,
  any, if◌then◌else◌,
}
use dateilager.Result.{Result, ok, err, unique_violation}

-- db.Hash: the 32 bytes of a SHA-256 sum.
abbrev pub Hash : Type 0
Hash = Bytes

pub record ProjectRow : Type 0 where
  pub id : ℤ
  pub latest_version : ℤ
  pub pack_patterns : List Bytes

-- `stop_version` is nullable: a row without one is live.
pub record ObjectRow : Type 0 where
  pub project : ℤ
  pub start_version : ℤ
  pub stop_version : Option ℤ
  pub path : Bytes
  pub hash : Hash
  pub mode : ℤ
  pub size : ℤ
  pub packed : Bool

pub record ContentRow : Type 0 where
  pub hash : Hash
  pub bytes : Bytes

pub record CacheRow : Type 0 where
  pub version : ℤ
  pub hashes : List Hash

pub record Tables : Type 0 where
  pub projects : List ProjectRow
  pub objects : List ObjectRow
  pub contents : List ContentRow
  pub cache_versions : List CacheRow
  -- the sequence behind the bigserial column of cache_versions
  pub next_cache : ℤ

-- `stop_version IS NULL`
abbrev pub is_live : ObjectRow → Bool
is_live r = elim r.stop_version [ none ↦ true | some _ ↦ false ]

-- Two rows of one path clash if both are stopped at one version (objects_latest_idx, which
-- implies objects_idx), or both are live with one hash and mode (identical_objects_idx). The
-- indexes treat NULLs as distinct.
abbrev clash_stop : Option ℤ → Option ℤ → Bool → Bool
clash_stop none none same = same
clash_stop none (some b) same = false
clash_stop (some a) none same = false
clash_stop (some a) (some b) same = eqb_ℤ a b

unfoldable pub clash : ObjectRow → ObjectRow → Bool
clash r q =
    eqb_ℤ r.project q.project
    && bytes_eq r.path q.path
    && clash_stop r.stop_version q.stop_version (bytes_eq r.hash q.hash && eqb_ℤ r.mode q.mode)

-- No two rows clash.
unfoldable pub is_unique : List ObjectRow → Bool
is_unique [] = true
is_unique (r ∷ rows) = not (any (clash r) rows) && is_unique rows

-- UPDATE … SET … WHERE, with the unique indexes checked. All updates of the program set the same
-- values in every row, so a clash on the way is a clash at the end.
unfoldable pub update_rows :
    (ObjectRow → Bool) → (ObjectRow → ObjectRow) → List ObjectRow → List ObjectRow
update_rows p f rows = map (λ r. if p r then f r else r) rows

unfoldable pub checked : List ObjectRow → Result (List ObjectRow)
checked rows = if is_unique rows then ok rows else err unique_violation

-- INSERT … ON CONFLICT DO NOTHING of one row, with whether it was inserted.
unfoldable pub insert_or_skip : ObjectRow → List ObjectRow → Bool × List ObjectRow
insert_or_skip r rows = if any (clash r) rows then (false, rows) else (true, r ∷ rows)

-- The rows of dl.contents, whose key is the hash.
unfoldable pub insert_content : ContentRow → List ContentRow → List ContentRow
insert_content c rows = if any (λ d. bytes_eq d.hash c.hash) rows then rows else c ∷ rows

unfoldable pub is_project : ℤ → ProjectRow → Bool
is_project p row = eqb_ℤ row.id p
