-- ===== src/Api/Fs/Update.antt =====
-- pkg/api/fs.go, Update: the handler that receives a stream of objects and writes them as the next
-- version of a project. A message without an object, on which the code panics, is not modelled.
use dateilager.Prelude.{
  Bool, true, false, not, ◌&&◌, ◌||◌, Option, none, some, List, [], ◌∷◌, ◌++◌, ℤ, negsuc, eqb_ℤ,
  succ64, Bytes, bytes_eq, length, ◌==◌, if◌then◌else◌,
}
use dateilager.Result.{
  Code, Error, no_such_project, status, invalid_argument, unavailable, internal, not_found,
}
use dateilager.Codec.{Codec}
use dateilager.Auth.{Auth, require_project_auth}
use dateilager.Db.Session.{Tx, pure, raise, lift, connect, commit, catch, close, ◌>>=◌, ◌>>◌}
use dateilager.Db.Project.{lock_latest_version, update_latest_version}
use dateilager.Db.Update.{Object, delete_object, update_object}
use dateilager.Db.Pack.{new_pack_manager, is_path_packed, update_packed_objects}
use dateilager.Api.Fs.{as_status, in_status}

-- What stream.Recv returns before io.EOF: an UpdateRequest, or an error with its code.
pub data Received : Type 0 where
  request : ℤ → Object → Received
  failure : Code → Received

-- The variables that the loop of receive-update-objects sets.
pub record Buffers : Type 0 where
  pub project : ℤ
  pub pack_manager : Option (List Bytes)
  pub object_buffer : List Object
  pub packed_buffer : List (Bytes × List Object)

-- packedBuffer[parent] = append(packedBuffer[parent], object)
unfoldable pub append_packed :
    Bytes → Object → List (Bytes × List Object) → List (Bytes × List Object)
append_packed parent object [] = (parent, object ∷ []) ∷ []
append_packed parent object ((key, objects) ∷ packed) =
    let rest = append_packed parent object packed in
    if bytes_eq key parent then (key, objects ++ object ∷ []) ∷ packed else (key, objects) ∷ rest

module _ (codec : Codec) where
  unfoldable pub buffer_object : List Bytes → Object → Buffers → Buffers
  unfolding append_packed
  buffer_object manager object b = elim (is_path_packed codec manager object.path) [
    | none ↦ record b { object_buffer = b.object_buffer ++ object ∷ [] }
    | some parent ↦ record b { packed_buffer = append_packed parent object b.packed_buffer }
  ]

  abbrev pub ensure_manager : ℤ → Option (List Bytes) → Tx (List Bytes)
  ensure_manager project none = in_status internal (new_pack_manager codec project)
  ensure_manager project (some manager) = pure manager

  -- The project of the stream once a request names `requested`.
  abbrev pub stream_project : ℤ → ℤ → ℤ
  stream_project project requested = if eqb_ℤ project (negsuc 0) then requested else project

  -- The loop of receive-update-objects
  unfoldable pub receive : List Received → Buffers → Tx Buffers
  unfolding buffer_object
  receive [] b = pure b
  receive (failure code ∷ stream) b = raise (status code)
  receive (request requested object ∷ stream) b =
      let project = stream_project b.project requested in
      if not (eqb_ℤ project requested) then raise (status invalid_argument) else do
        manager ← ensure_manager project b.pack_manager
        receive stream (
            buffer_object manager object
              (record b { project = project; pack_manager = some manager }))

  -- One turn of the loop of update-objects: whether the version must change
  unfoldable pub write_object : ℤ → ℤ → Object → Tx Bool
  write_object project version object =
      if object.deleted
      then (delete_object project version object.path >> pure true)
      else update_object codec project version object

  unfoldable pub write_objects : ℤ → ℤ → List Object → Bool → Tx Bool
  unfolding write_object
  write_objects project version [] changed = pure changed
  write_objects project version (object ∷ objects) changed = do
    content_changed ← in_status internal (write_object project version object)
    write_objects project version objects (changed || content_changed)

  -- The loop of update-packed-objects
  unfoldable pub write_packs : ℤ → ℤ → List (Bytes × List Object) → Bool → Tx Bool
  write_packs project version [] changed = pure changed
  write_packs project version ((parent, objects) ∷ packed) changed = do
    content_changed ←
        in_status internal (update_packed_objects codec project version parent objects)
    write_packs project version packed (changed || content_changed)

  abbrev pub as_locked : Error → Error
  as_locked no_such_project = status not_found
  as_locked e = as_status internal e

  -- len(objectBuffer) == 0 && len(packedBuffer) == 0
  abbrev pub is_empty : Buffers → Bool
  is_empty b = length b.object_buffer == 0 && length b.packed_buffer == 0

  -- Update after the loop that receives, up to the new version and whether it was committed.
  -- `range` is the order in which Go walks the map of packed objects.
  unfoldable pub write_version :
      (List (Bytes × List Object) → List (Bytes × List Object)) → Buffers → Tx ℤ
  unfolding write_objects write_packs
  write_version range b = if is_empty b then pure (negsuc 0) else do
    latest_version ← catch as_locked (lock_latest_version b.project)
    changed ← write_objects b.project (succ64 latest_version) b.object_buffer false
    should_update ← write_packs b.project (succ64 latest_version) (range b.packed_buffer) changed
    if not should_update then pure latest_version else do
      in_status internal (update_latest_version b.project (succ64 latest_version))
      in_status internal commit
      pure (succ64 latest_version)

  abbrev pub no_buffers : ℤ → Buffers
  no_buffers project = record {
    project = project;
    pack_manager = none;
    object_buffer = [];
    packed_buffer = [];
  }

  -- Update: the version in the response
  unfoldable pub update :
      (List (Bytes × List Object) → List (Bytes × List Object)) → Auth → List Received → Tx ℤ
  unfolding receive write_version
  update range auth stream = close do
    project ← lift (require_project_auth auth)
    in_status unavailable connect
    b ← receive stream (no_buffers project)
    write_version range b
