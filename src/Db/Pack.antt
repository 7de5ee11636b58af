-- ===== src/Db/Pack.antt =====
-- PackManager of internal/db/query.go and UpdatePackedObjects of internal/db/update.go: which paths
-- are packed, and the update of a pack.
use dateilager.Prelude.{
  Bool, true, false, ◌&&◌, Option, none, some, List, [], ◌∷◌, ◌++◌, ℤ, pos, eqb_ℤ, Bytes, bytes_eq,
  codes, split, any, all, find, is_some, length, if◌then◌else◌,
}
use dateilager.Result.{
  Result, ok, err, query_failed, unique_violation, empty_pack, panic, out_of_fuel,
}
use dateilager.Codec.{Codec}
use dateilager.Db.Schema.{Tables, Hash, ObjectRow, ContentRow, is_live, is_project, clash}
use dateilager.Db.Session.{Tx, Statement, exec, exec_outside, pure, raise, ◌>>=◌, ◌>>◌}
use dateilager.Db.Query.{zero_hash}
use dateilager.Db.Reset.{set_rows}
use dateilager.Db.Update.{Object, stop_at, insert_contents}
use dateilager.Db.Tar.{update_objects}

unfoldable pub select_patterns : ℤ → Statement (List Bytes)
unfolding is_project
select_patterns project t = elim (find (is_project project) t.projects) [
  | none ↦ err query_failed
  | some r ↦ ok (r.pack_patterns, t)
]

-- The loop of IsPathPacked over the parts of a path.
packed_at : Codec → List Bytes → Bytes → List Bytes → Option Bytes
packed_at codec matchers current [] = none
packed_at codec matchers current (part ∷ parts) =
    let path = current ++ (part ++ codes "/") in
    let rest = packed_at codec matchers path parts in
    if any (λ matcher. codec.matches matcher path) matchers then some path else rest

-- IsPathPacked
unfoldable pub is_path_packed : Codec → List Bytes → Bytes → Option Bytes
unfolding packed_at split
is_path_packed codec matchers path = packed_at codec matchers [] (split b'/' path)

-- NewPackManager: the patterns that the manager matches with
unfoldable pub new_pack_manager : Codec → ℤ → Tx (List Bytes)
unfolding select_patterns
new_pack_manager codec project = do
  patterns ← exec (select_patterns project)
  if all codec.is_pattern patterns then pure patterns else raise panic

-- The WHERE clause on the pack of a directory.
unfoldable pub is_live_pack : ℤ → Bytes → ObjectRow → Bool
is_live_pack project parent r =
    eqb_ℤ r.project project && bytes_eq r.path parent && (r.packed && is_live r)

abbrev content_of : List ContentRow → ObjectRow → Option ContentRow
content_of contents r = find (λ c. bytes_eq c.hash r.hash) contents

-- The hash and the content of the first row of the join; without one, both keep their zero values.
unfoldable pub found_pack : ℤ → Bytes → Tables → Hash × Bytes
unfolding is_live_pack
found_pack project parent t =
    let joined : ObjectRow → Bool =
      λ r. is_live_pack project parent r && is_some (content_of t.contents r) in
    elim (find joined t.objects) [
      | none ↦ (zero_hash, [])
      | some r ↦ elim (content_of t.contents r) [
        | none ↦ (zero_hash, [])
        | some c ↦ (r.hash, c.bytes)
      ]
    ]

unfoldable pub select_pack : ℤ → Bytes → Statement (Hash × Bytes)
unfolding found_pack
select_pack project parent t = ok (found_pack project parent t, t)

-- INSERT INTO dl.objects without ON CONFLICT
unfoldable pub insert_strictly : ObjectRow → Statement (Unit {0})
insert_strictly r t =
    if any (clash r) t.objects
    then err unique_violation
    else ok (tt, record t { objects = r ∷ t.objects })

unfoldable pub pack_row : Codec → ℤ → ℤ → Bytes → Bytes → ObjectRow
pack_row codec project version parent updated = record {
  project = project;
  start_version = version;
  stop_version = none;
  path = parent;
  hash = codec.hash_content updated;
  mode = pos 0;
  size = pos (length updated);
  packed = true;
}

-- The result of updateObjects as UpdatePackedObjects takes it: no bytes are an empty pack.
unfoldable pub updated_pack : Codec → Bytes → List Object → Result (Option Bytes)
updated_pack codec content updates = elim (update_objects codec content updates) [
  | none ↦ err out_of_fuel
  | some r ↦ elim r [
    | ok updated ↦ ok (some updated)
    | err e ↦ elim e [ empty_pack ↦ ok none | other ↦ err other ]
  ]
]

module _ (codec : Codec) (project version : ℤ) (parent : Bytes) where
  -- The statements of UpdatePackedObjects once the content changed.
  unfoldable pub replace_pack : Option Bytes → Tx (Unit {0})
  unfolding pack_row insert_strictly is_live_pack
  replace_pack none = exec (set_rows (is_live_pack project parent) (stop_at version))
  replace_pack (some updated) = do
    exec_outside (insert_contents (codec.hash_content updated) updated)
    exec (set_rows (is_live_pack project parent) (stop_at version))
    exec (insert_strictly (pack_row codec project version parent updated))

  abbrev pub bytes_of : Option Bytes → Bytes
  bytes_of none = []
  bytes_of (some updated) = updated

  abbrev pub replace_if_changed : Hash → Result (Option Bytes) → Tx Bool
  replace_if_changed hash (err e) = raise e
  replace_if_changed hash (ok updated) =
      if bytes_eq hash (codec.hash_content (bytes_of updated))
      then pure false
      else (replace_pack updated >> pure true)

  -- UpdatePackedObjects: whether the content changed
  unfoldable pub update_packed_objects : List Object → Tx Bool
  unfolding select_pack updated_pack
  update_packed_objects updates = do
    (hash, content) ← exec (select_pack project parent)
    replace_if_changed hash (updated_pack codec content updates)
