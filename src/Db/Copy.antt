-- ===== src/Db/Copy.antt =====
-- internal/db/copy.go: copying the live objects of a project into another.
use dateilager.Prelude.{
  Bool, true, false, not, ◌&&◌, none, some, List, [], ◌∷◌, ◌++◌, map, ℤ, pos, ◌-ℤ◌, eqb_ℤ, bytes_eq,
  any, filter, find, if◌then◌else◌,
}
use dateilager.Result.{ok, err, pack_mismatch, unique_violation, not_null_violation}
use dateilager.Db.Schema.{ObjectRow, is_live, is_project, insert_or_skip, is_unique}
use dateilager.Db.Session.{Tx, Statement, exec, raise, ◌>>=◌, ◌>>◌}
use dateilager.Db.Query.{QueryBuilder, DbObject, build}
use dateilager.Db.Project.{has_same_pack_pattern, set_versions}
use dateilager.Db.Reset.{set_rows}
use dateilager.Db.Update.{stop_at}

-- INSERT INTO dl.objects … SELECT $1, … FROM dl.objects WHERE project = $2 AND stop_version IS NULL
unfoldable pub insert_copies : ℤ → ℤ → Statement (Unit {0})
insert_copies source target t =
    let copies =
      map {A = ObjectRow} (λ r. record r { project = target })
        (filter (λ r. eqb_ℤ r.project source && is_live r) t.objects) in
    if is_unique (copies ++ t.objects)
    then ok (tt, record t { objects = copies ++ t.objects })
    else err unique_violation

-- SET latest_version = (SELECT latest_version …): NULL if the source is missing
unfoldable pub copy_version : ℤ → ℤ → Statement (Unit {0})
unfolding is_project
copy_version source target t = elim (find (is_project source) t.projects) [
  | some r ↦ ok (tt, record t { projects = set_versions target r.latest_version t.projects })
  | none ↦ if any (is_project target) t.projects then err not_null_violation else ok (tt, t)
]

-- CopyAllObjects
unfoldable pub copy_all_objects : ℤ → ℤ → Tx (Unit {0})
copy_all_objects source target = do
  same_pack_patterns ← has_same_pack_pattern source target
  if not same_pack_patterns
      then raise pack_mismatch
      else do exec (insert_copies source target); exec (copy_version source target)

-- The query of CloneToProject: the live objects of a project at a version.
unfoldable pub live_query : ℤ → ℤ → QueryBuilder
live_query project version = record {
  project = project;
  vrange = record { from = pos 0; to = version };
  object_query = record { path = []; is_prefix = true; ignores = [] };
  cache_versions = [];
}

abbrev same_flag : Bool → Bool → Bool
same_flag true b = b
same_flag false b = not b

-- Equality of the selected columns, as EXCEPT compares them.
unfoldable pub same_object : DbObject → DbObject → Bool
same_object a b =
    bytes_eq a.path b.path
    && eqb_ℤ a.mode b.mode
    && (eqb_ℤ a.size b.size && same_flag a.cached b.cached)
    && (same_flag a.packed b.packed && same_flag a.deleted b.deleted)
    && bytes_eq a.hash b.hash

-- WITH live_source_objects, to_remove UPDATE dl.objects
unfoldable pub stop_removed : ℤ → ℤ → ℤ → ℤ → Statement (Unit {0})
unfolding live_query same_object
stop_removed source target version new_target_version t =
    let live_source_objects = build (live_query source version) t in
    let to_remove =
      filter (λ o. not (any (same_object o) live_source_objects))
        (build (live_query target (new_target_version -ℤ pos 1)) t) in
    set_rows
      (λ o. eqb_ℤ o.project target && any (λ r. bytes_eq o.path r.path) to_remove && is_live o)
      (stop_at new_target_version) t

unfoldable pub clone_row : ℤ → ℤ → DbObject → ObjectRow
clone_row target version o = record {
  project = target;
  start_version = version;
  stop_version = none;
  path = o.path;
  hash = o.hash;
  mode = o.mode;
  size = o.size;
  packed = o.packed;
}

-- INSERT … SELECT … ON CONFLICT DO NOTHING, row by row
unfoldable pub insert_all : List ObjectRow → List ObjectRow → List ObjectRow
unfolding insert_or_skip
insert_all [] rows = rows
insert_all (r ∷ rs) rows = insert_all rs (insert_or_skip r rows).1

unfoldable pub insert_clones : ℤ → ℤ → ℤ → ℤ → Statement (Unit {0})
unfolding live_query clone_row
insert_clones source target version new_target_version t =
    let live = filter (λ o. not o.deleted) (build (live_query source version) t) in
    ok (
      tt,
      record t { objects = insert_all (map (clone_row target new_target_version) live) t.objects },
    )

-- CloneToProject
unfoldable pub clone_to_project : ℤ → ℤ → ℤ → ℤ → Tx (Unit {0})
clone_to_project source target version new_target_version = do
  exec (stop_removed source target version new_target_version)
  exec (insert_clones source target version new_target_version)
