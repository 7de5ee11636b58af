-- ===== src/Db/Update.antt =====
-- internal/db/update.go: one object of an update stream.
pub mod Replace
pub mod Placed
pub mod Calm
pub mod Trees
use dateilager.Prelude.{
  ℕ, zero, suc, ◌+◌, ◌-◌, ◌≡◌, Bool, true, false, not, ◌&&◌, Option, none, some, List, [], ◌∷◌,
  ◌++◌, map, ℤ, pos, eqb_ℤ, ◌==◌, Bytes, bytes_eq, codes, any, length, take, split, join,
  if◌then◌else◌,
}
use dateilager.Result.{Result, ok, err}
use dateilager.Codec.{Codec}
use dateilager.Db.Schema.{
  Hash, ObjectRow, ContentRow, Tables, is_live, insert_or_skip, insert_content,
}
use dateilager.Db.Session.{Tx, Statement, exec, has_row, exec_outside, pure, ◌>>=◌, ◌>>◌}
use dateilager.Db.Reset.{set_rows}

-- pb.Object; a nil content is the empty one.
pub record Object : Type 0 where
  pub path : Bytes
  pub mode : ℤ
  pub size : ℤ
  pub deleted : Bool
  pub content : Bytes

abbrev pub stop_at : ℤ → ObjectRow → ObjectRow
stop_at version r = record r { stop_version = some version }

-- The WHERE clause of DeleteObject.
unfoldable pub is_live_at : ℤ → Bytes → ObjectRow → Bool
is_live_at project path r = eqb_ℤ r.project project && bytes_eq r.path path && is_live r

-- DeleteObject
unfoldable pub delete_object : ℤ → ℤ → Bytes → Tx (Unit {0})
delete_object project version path = exec (set_rows (is_live_at project path) (stop_at version))

-- for i := 1; i < len(pathChunks); i++, with the rounds that are left
parent_paths : ℕ → ℕ → List Bytes → List Bytes
parent_paths i zero path_chunks = []
parent_paths i (suc rounds) path_chunks =
    (join (codes "/") (take i path_chunks) ++ codes "/") ∷ parent_paths (i + 1) rounds path_chunks

-- previousPaths of UpdateObject: the path and the directories above it.
unfoldable pub previous_paths : Bytes → List Bytes
unfolding parent_paths split join
previous_paths path =
    let path_chunks = split b'/' path in path ∷ parent_paths 1 (length path_chunks - 1) path_chunks

-- INSERT INTO dl.objects … ON CONFLICT DO NOTHING RETURNING project
unfoldable pub insert_object : ObjectRow → Statement Bool
unfolding insert_or_skip
insert_object row t =
    let (inserted, rows) = insert_or_skip row t.objects in
    ok (inserted, record t { objects = rows })

-- INSERT INTO dl.contents … ON CONFLICT DO NOTHING
unfoldable pub insert_contents : Hash → Bytes → Statement (Unit {0})
unfolding insert_content
insert_contents hash bytes t =
    ok (
      tt,
      record t { contents = insert_content (record { hash = hash; bytes = bytes }) t.contents },
    )

-- The WHERE clause of the UPDATE in UpdateObject.
unfoldable pub is_previous : ℤ → ℤ → List Bytes → ObjectRow → Bool
is_previous project version paths r =
    eqb_ℤ r.project project
    && any (bytes_eq r.path) paths
    && (is_live r && not (eqb_ℤ r.start_version version))

module _ (codec : Codec) (project version : ℤ) where
  -- The row that UpdateObject inserts.
  unfoldable pub new_row : Object → ObjectRow
  new_row object = record {
    project = project;
    start_version = version;
    stop_version = none;
    path = object.path;
    hash = codec.hash_content object.content;
    mode = object.mode;
    size = object.size;
    packed = false;
  }

  -- UpdateObject: whether the content changed. An INSERT whose failure only rows.Err would show counts
  -- as identical, and the update goes on.
  unfoldable pub update_object : Object → Tx Bool
  update_object object = do
    exec_outside (insert_contents (codec.hash_content object.content) (codec.encode object.content))
    inserted ← has_row (insert_object (new_row object))
    if not inserted then pure false else do
      exec (set_rows (is_previous project version (previous_paths object.path)) (stop_at version))
      pure true
