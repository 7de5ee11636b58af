-- ===== src/Api/Fs/Atomic.antt =====
-- pkg/api/fs.go: a handler that fails leaves no trace. Any connection, statement and commit may
-- fail. Contents, which are stored outside of transactions and never change, may be added.
pub mod Admin
use dateilager.Prelude.{
  ◌≡◌, refl, sym, ◌∙◌, Bool, true, false, not, ◌&&◌, ◌||◌, Option, none, some, List, [], all,
  bytes_eq, ◌∷◌, ℤ, negsuc, eqb_ℤ, Bytes, if◌then◌else◌, Bool-cases, inl, inr, ◌⊎◌, arith, length,
  ◌==◌, leb_ℤ, succ64,
}
use dateilager.Result.{
  Code, Error, Result, ok, err, invalid_argument, internal, status, unavailable, panic,
}
use dateilager.Codec.{Codec}
use dateilager.Auth.{Auth, require_admin_auth, require_project_auth}
use dateilager.Db.Schema.{Hash, Tables}
use dateilager.Db.Session.{
  Session, Tx, Statement, pure, raise, lift, exec, exec_outside, connect, commit, catch, close,
  ◌>>=◌, ◌>>◌,
}
use dateilager.Db.Session.Keeps.{
  Keeps, KeepsOnError, Same, Keeps-pure, Keeps-raise, Keeps-lift, Keeps-catch, Keeps-exec,
  Keeps-has_row, keeps→on_error, on_error-catch, on_error-close, Keeps->>=, on_error->>=,
  Keeps-connect, on_error-commit, Keeps-if, on_error-if,
}
use dateilager.Db.Project.{lock_latest_version, update_latest_version}
use dateilager.Db.Reset
use dateilager.Db.Copy
use dateilager.Db.Update.{Object, insert_contents, delete_object, update_object}
use dateilager.Db.Pack.{
  new_pack_manager, replace_pack, update_packed_objects, select_pack, updated_pack,
  replace_if_changed, bytes_of,
}
use dateilager.Api.Fs.{
  Env, as_status, in_status, check_env, copy_template, new_project, clone_project, remove_project,
  rollback, reset_projects, reset_named, reset,
}
use dateilager.Api.Fs.Update.{
  Received, request, failure, Buffers, receive, write_object, write_objects, write_packs,
  write_version, update, ensure_manager, is_empty, no_buffers, buffer_object, stream_project,
}

-- A commit is the last thing that can fail.
pub on_error-committed {ℓ} :
    {A : Type ℓ} (a : A) → KeepsOnError (in_status internal commit >>= λ _. pure a)
unfolding ◌>>=◌ catch
on_error-committed a s e h = ground arith

Keeps-contents : (hash : Hash) (bytes : Bytes) → Keeps (exec_outside (insert_contents hash bytes))
unfolding exec_outside insert_contents
Keeps-contents hash bytes s = ground arith

module _ (codec : Codec) (project version : ℤ) where
  Keeps-replace_pack :
      (parent : Bytes) (pack : Option Bytes)
      → Keeps (replace_pack codec project version parent pack)
  unfolding replace_pack
  Keeps-replace_pack parent none = Keeps-exec _
  Keeps-replace_pack parent (some updated) =
      Keeps->>= _ _ (Keeps-contents _ _) λ _. Keeps->>= _ _ (Keeps-exec _) λ _. Keeps-exec _

  Keeps-update_object : (object : Object) → Keeps (update_object codec project version object)
  unfolding update_object
  Keeps-update_object object = Keeps->>= _ _ (Keeps-contents _ _) λ _.
      Keeps->>= _ _ (Keeps-has_row _) λ inserted.
        Keeps-if _ _ (not inserted) (Keeps-pure false)
          (Keeps->>= _ _ (Keeps-exec _) λ _. Keeps-pure true)

  Keeps-write_object : (object : Object) → Keeps (write_object codec project version object)
  unfolding write_object delete_object
  Keeps-write_object object =
      Keeps-if _ _ object.deleted (Keeps->>= _ _ (Keeps-exec _) λ _. Keeps-pure true)
        (Keeps-update_object object)

  Keeps-changed :
      (parent : Bytes) (hash : Hash) (pack : Result (Option Bytes))
      → Keeps (replace_if_changed codec project version parent hash pack)
  Keeps-changed parent hash (err e) = Keeps-raise Bool e
  Keeps-changed parent hash (ok pack) =
      Keeps-if _ _ (bytes_eq hash (codec.hash_content (bytes_of codec project version parent pack)))
        (Keeps-pure false) (Keeps->>= _ _ (Keeps-replace_pack parent pack) λ _. Keeps-pure true)

  Keeps-pack :
      (parent : Bytes) (updates : List Object)
      → Keeps (update_packed_objects codec project version parent updates)
  unfolding update_packed_objects
  Keeps-pack parent updates =
      Keeps->>= _ _ (Keeps-exec _)
        λ found. Keeps-changed parent found.0 (updated_pack codec found.1 updates)

  Keeps-write_objects :
      (objects : List Object) (changed : Bool)
      → Keeps (write_objects codec project version objects changed)
  unfolding write_objects
  Keeps-write_objects [] changed = Keeps-pure changed
  Keeps-write_objects (object ∷ objects) changed =
      Keeps->>= _ _ (Keeps-catch _ _ (Keeps-write_object object))
        λ c. Keeps-write_objects objects (changed || c)

  Keeps-write_packs :
      (packed : List (Bytes × List Object)) (changed : Bool)
      → Keeps (write_packs codec project version packed changed)
  unfolding write_packs
  Keeps-write_packs [] changed = Keeps-pure changed
  Keeps-write_packs ((parent, objects) ∷ packed) changed =
      Keeps->>= _ _ (Keeps-catch _ _ (Keeps-pack parent objects))
        λ c. Keeps-write_packs packed (changed || c)

Keeps-ensure :
    (codec : Codec) (project : ℤ) (manager : Option (List Bytes))
    → Keeps (ensure_manager codec project manager)
unfolding new_pack_manager
Keeps-ensure codec project (some manager) = Keeps-pure manager
Keeps-ensure codec project none = Keeps-catch _ _ (
    Keeps->>= _ _ (Keeps-exec _) λ patterns.
      Keeps-if _ _ (all codec.is_pattern patterns) (Keeps-pure patterns) (Keeps-raise _ panic))

Keeps-receive :
    (codec : Codec) (stream : List Received) (b : Buffers) → Keeps (receive codec stream b)
unfolding receive
Keeps-receive codec [] b = Keeps-pure b
Keeps-receive codec (failure code ∷ stream) b = Keeps-raise _ (status code)
Keeps-receive codec (request requested object ∷ stream) b =
    let project = stream_project codec b.project requested in
    Keeps-if _ _ (not (eqb_ℤ project requested)) (Keeps-raise _ (status invalid_argument)) (
      Keeps->>= _ _ (Keeps-ensure codec project b.pack_manager) λ manager.
        Keeps-receive codec stream (
          buffer_object codec manager object
            (record b { project = project; pack_manager = some manager })))

on_error-write_version :
    (codec : Codec) (range : List (Bytes × List Object) → List (Bytes × List Object)) (b : Buffers)
    → KeepsOnError (write_version codec range b)
unfolding write_version lock_latest_version update_latest_version
on_error-write_version codec range b =
    on_error-if _ _ (is_empty codec b) (keeps→on_error (pure (negsuc 0)) (Keeps-pure (negsuc 0))) (
      on_error->>= _ _ (Keeps-catch _ _ (Keeps-exec _)) λ latest.
        on_error->>= _ _ (Keeps-write_objects codec b.project (succ64 latest) b.object_buffer false)
          λ changed.
            on_error->>= _ _
              (Keeps-write_packs codec b.project (succ64 latest) (range b.packed_buffer) changed)
              λ should_update.
                on_error-if _ _ (not should_update)
                  (keeps→on_error (pure latest) (Keeps-pure latest))
                  (on_error->>= _ _ (Keeps-catch _ _ (Keeps-exec _))
                    λ _. on_error-committed (succ64 latest)))

-- If Update answers with an error, the durable projects, objects and caches are as before, whatever
-- the stream sends and whichever connections, statements and commits fail.
pub update-atomic :
    (codec : Codec) (range : List (Bytes × List Object) → List (Bytes × List Object)) (auth : Auth)
    (stream : List Received) (s : Session) (e : Error)
    → (update codec range auth stream s).0 ≡ err e
    → Same s (update codec range auth stream s).1
unfolding update
update-atomic codec range auth stream = on_error-close _ (
    on_error->>= _ _ (Keeps-lift _) λ project. on_error->>= _ _ (Keeps-catch _ _ Keeps-connect) λ _.
      on_error->>= _ _ (Keeps-receive codec stream (no_buffers codec project))
        λ b. on_error-write_version codec range b)
