-- ===== src/Api/Fs.antt =====
-- pkg/api/fs.go: the handlers that only an administrator may call, and what all handlers share.
--
-- A handler is a transaction of its own. Each response is a value; sending it, logging and tracing
-- are left out. What a random sample selects is an argument.
pub mod Update
pub mod Read
pub mod Atomic
pub mod Denied
pub mod Rolled
pub mod Isolated
use dateilager.Prelude.{
  ℕ, ◌≡◌, Bool, true, false, not, ◌&&◌, ◌||◌, Option, none, some, List, [], ◌∷◌, ℤ, pos, leb_ℤ,
  Bytes, length, ◌==◌, map, if◌then◌else◌,
}
use dateilager.Result.{
  Code, Error, Result, ok, err, project_exists, panic, status, invalid_argument, unavailable,
  internal, already_exists, unimplemented,
}
use dateilager.Auth.{Auth, require_admin_auth}
use dateilager.Db.Schema.{Hash, ProjectRow, ContentRow}
use dateilager.Db.Session.{Tx, pure, raise, lift, connect, commit, catch, close, ◌>>=◌, ◌>>◌}
use dateilager.Db.Project.{
  ProjectVersion, create_project, delete_project, list_projects, has_same_pack_pattern,
  lock_latest_version, update_latest_version, random_projects, random_contents,
}
use dateilager.Db.Copy.{copy_all_objects, clone_to_project}
use dateilager.Db.Reset.{reset_all, reset_project, drop_other_projects}
use dateilager.Db.Gc.{gc_project_objects, gc_projects_objects, gc_content_hashes}
use dateilager.Prelude.{succ64}

-- environment.Env, with its zero value
pub data Env : Type 0 where
  unset dev test prod : Env

-- f.Env != environment.Dev && f.Env != environment.Test
unfoldable pub check_env : Env → Result (Unit {0})
check_env dev = ok tt
check_env test = ok tt
check_env _ = err (status unimplemented)

-- status.Errorf(code, …, err); a panic is not an error.
abbrev pub as_status : Code → Error → Error
as_status code panic = panic
as_status code _ = status code

abbrev pub in_status {ℓ} : {A : Type ℓ} → Code → Tx A → Tx A
in_status code = catch (as_status code)

-- The code of NewProject for an error of CreateProject.
abbrev pub as_created : Error → Error
as_created project_exists = status already_exists
as_created e = as_status internal e

abbrev pub copy_template : Option ℤ → ℤ → Tx (Unit {0})
copy_template none id = pure tt
copy_template (some template) id = copy_all_objects template id

module _ (auth : Auth) where
  -- NewProject
  unfoldable pub new_project : ℤ → Option ℤ → List Bytes → Tx (Unit {0})
  new_project id template pack_patterns = close do
    lift (require_admin_auth auth)
    in_status unavailable connect
    catch as_created (create_project id pack_patterns)
    in_status internal (copy_template template id)
    in_status internal commit

  -- CloneToProject: the new version of the target
  unfoldable pub clone_project : ℤ → ℤ → ℤ → Tx ℤ
  clone_project source target version = close do
    lift (require_admin_auth auth)
    in_status unavailable connect
    same_pack_patterns ← in_status internal (has_same_pack_pattern source target)
    if not same_pack_patterns then raise (status invalid_argument) else do
      latest_version ← in_status internal (lock_latest_version target)
      in_status internal (clone_to_project source target version (succ64 latest_version))
      in_status internal (update_latest_version target (succ64 latest_version))
      in_status internal commit
      pure (succ64 latest_version)

  -- DeleteProject
  unfoldable pub remove_project : ℤ → Tx (Unit {0})
  remove_project project = close do
    lift (require_admin_auth auth)
    in_status unavailable connect
    in_status internal (delete_project project)
    in_status internal commit

  -- ListProjects
  unfoldable pub show_projects : Tx (List ProjectVersion)
  show_projects = close do
    lift (require_admin_auth auth)
    in_status unavailable connect
    in_status internal list_projects

  -- Rollback
  unfoldable pub rollback : ℤ → ℤ → Tx (Unit {0})
  rollback project version = close do
    lift (require_admin_auth auth)
    in_status unavailable connect
    in_status internal (reset_project project version)
    in_status internal commit

  -- Snapshot
  unfoldable pub snapshot : Env → Tx (List ProjectVersion)
  unfolding check_env
  snapshot env = close do
    lift (check_env env)
    lift (require_admin_auth auth)
    in_status unavailable connect
    in_status internal list_projects

  -- The loop of Reset.
  unfoldable pub reset_projects : List ProjectVersion → Tx (Unit {0})
  reset_projects [] = pure tt
  reset_projects (project ∷ projects) = do
    in_status internal (reset_project project.id project.version)
    reset_projects projects

  unfoldable pub reset_named : List ProjectVersion → Tx (Unit {0})
  unfolding reset_projects
  reset_named [] = in_status internal reset_all
  reset_named (project ∷ projects) = do
    reset_projects (project ∷ projects)
    in_status internal (drop_other_projects (map (λ p. p.id) (project ∷ projects)))

  -- Reset
  unfoldable pub reset : Env → List ProjectVersion → Tx (Unit {0})
  unfolding check_env reset_named
  reset env projects = close do
    lift (check_env env)
    lift (require_admin_auth auth)
    in_status unavailable connect
    reset_named projects
    in_status internal commit

  -- GcProject, outside a transaction: the number of contents that it deletes
  unfoldable pub gc_project : ℤ → ℤ → Option ℤ → Tx ℤ
  gc_project project keep_versions from_version = do
    lift (require_admin_auth auth)
    if leb_ℤ keep_versions (pos 0) then raise (status invalid_argument) else do
      hashes ← in_status internal (
          gc_project_objects project keep_versions
            (elim from_version [ none ↦ pos 0 | some v ↦ v ]))
      in_status internal (gc_content_hashes hashes)

  -- GcRandomProjects
  unfoldable pub gc_random_projects :
      (ℕ → List ProjectRow → List ℤ) → ℤ → Option ℤ → Tx (ℤ × List ℤ)
  gc_random_projects sample keep_versions from_version = do
    lift (require_admin_auth auth)
    if leb_ℤ keep_versions (pos 0) then raise (status invalid_argument) else do
      projects ← in_status internal (random_projects sample)
      hashes ← in_status internal (
          gc_projects_objects projects keep_versions
            (elim from_version [ none ↦ pos 0 | some v ↦ v ]))
      count ← in_status internal (gc_content_hashes hashes)
      pure (count, projects)

  -- GcContents
  unfoldable pub gc_contents : (List ContentRow → List Hash) → Tx ℤ
  gc_contents sample = do
    lift (require_admin_auth auth)
    hashes ← in_status internal (random_contents sample)
    in_status internal (gc_content_hashes hashes)
