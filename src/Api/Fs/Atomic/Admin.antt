-- ===== src/Api/Fs/Atomic/Admin.antt =====
-- pkg/api/fs.go: the handlers of the administrator that write in a transaction leave no trace if they
-- fail.
use dateilager.Prelude.{ap, ◌≡◌, not, Option, none, some, List, [], ◌∷◌, ℤ, Bytes, succ64}
use dateilager.Result.{Error, Result, ok, err, invalid_argument, internal, status, pack_mismatch}
use dateilager.Auth.{Auth}
use dateilager.Db.Session.{Session, Tx, commit, raise}
use dateilager.Db.Session.Keeps.{
  Keeps, KeepsOnError, Same, Keeps-pure, Keeps-raise, Keeps-lift, Keeps-catch, Keeps-exec,
  keeps→on_error, on_error-catch, on_error-close, Keeps->>=, on_error->>=, Keeps-connect,
  on_error-commit, Keeps-if, on_error-if,
}
use dateilager.Db.Project.{
  ProjectVersion, create_project, delete_project, has_same_pack_pattern, lock_latest_version,
  update_latest_version,
}
use dateilager.Db.Copy.{copy_all_objects, clone_to_project}
use dateilager.Db.Reset.{reset_all, reset_project, drop_other_projects}
use dateilager.Api.Fs.{
  Env, in_status, copy_template, new_project, clone_project, remove_project, rollback,
  reset_projects, reset_named, reset,
}
use dateilager.Api.Fs.Atomic.{on_error-committed}

on_error-last : KeepsOnError (in_status internal commit)
on_error-last = on_error-catch _ _ on_error-commit

Keeps-reset_project : (project version : ℤ) → Keeps (reset_project project version)
unfolding reset_project
Keeps-reset_project project version =
    Keeps->>= _ _ (Keeps-exec _) λ _. Keeps->>= _ _ (Keeps-exec _) λ _. Keeps-exec _

Keeps-copy : (template : Option ℤ) (id : ℤ) → Keeps (copy_template template id)
unfolding copy_all_objects has_same_pack_pattern
Keeps-copy none id = Keeps-pure tt
Keeps-copy (some template) id = Keeps->>= _ _ (Keeps-exec _) λ same.
    Keeps-if _ _ (not same) (Keeps-raise _ pack_mismatch)
      (Keeps->>= _ _ (Keeps-exec _) λ _. Keeps-exec _)

module _ (auth : Auth) where
  Keeps-reset_projects : (projects : List ProjectVersion) → Keeps (reset_projects auth projects)
  unfolding reset_projects
  Keeps-reset_projects [] = Keeps-pure tt
  Keeps-reset_projects (project ∷ projects) =
      Keeps->>= _ _ (Keeps-catch _ _ (Keeps-reset_project project.id project.version))
        λ _. Keeps-reset_projects projects

  Keeps-reset_named : (projects : List ProjectVersion) → Keeps (reset_named auth projects)
  unfolding reset_named reset_all drop_other_projects
  Keeps-reset_named [] =
      Keeps-catch _ _
        (Keeps->>= _ _ (Keeps-exec _) λ _. Keeps->>= _ _ (Keeps-exec _) λ _. Keeps-exec _)
  Keeps-reset_named (project ∷ projects) =
      Keeps->>= _ _ (Keeps-reset_projects (project ∷ projects))
        λ _. Keeps-catch _ _ (Keeps->>= _ _ (Keeps-exec _) λ _. Keeps-exec _)

-- If NewProject answers with an error, the durable projects, objects and caches are as before,
-- whichever connections, statements and commits fail.
new_project-atomic :
    (auth : Auth) (id : ℤ) (template : Option ℤ) (pack_patterns : List Bytes) (s : Session)
    (e : Error)
    → (new_project auth id template pack_patterns s).0 ≡ err e
    → Same s (new_project auth id template pack_patterns s).1
unfolding new_project create_project
new_project-atomic auth id template pack_patterns = on_error-close _ (
    on_error->>= _ _ (Keeps-lift _) λ _. on_error->>= _ _ (Keeps-catch _ _ Keeps-connect) λ _.
      on_error->>= _ _ (Keeps-catch _ _ (Keeps-catch _ _ (Keeps-exec _)))
        λ _. on_error->>= _ _ (Keeps-catch _ _ (Keeps-copy template id)) λ _. on_error-last)

-- If CloneToProject answers with an error, the durable projects, objects and caches are as before,
-- whichever connections, statements and commits fail.
clone_project-atomic :
    (auth : Auth) (source target version : ℤ) (s : Session) (e : Error)
    → (clone_project auth source target version s).0 ≡ err e
    → Same s (clone_project auth source target version s).1
unfolding clone_project has_same_pack_pattern lock_latest_version update_latest_version
    clone_to_project
clone_project-atomic auth source target version = on_error-close _ (
    on_error->>= _ _ (Keeps-lift _) λ _. on_error->>= _ _ (Keeps-catch _ _ Keeps-connect) λ _.
      on_error->>= _ _ (Keeps-catch _ _ (Keeps-exec _)) λ same.
        on_error-if _ _ (not same)
          (keeps→on_error (raise (status invalid_argument))
            (Keeps-raise ℤ (status invalid_argument)))
          (on_error->>= _ _ (Keeps-catch _ _ (Keeps-exec _)) λ latest.
            on_error->>= _ _ (Keeps-catch _ _ (Keeps->>= _ _ (Keeps-exec _) λ _. Keeps-exec _)) λ _.
              on_error->>= _ _ (Keeps-catch _ _ (Keeps-exec _))
                λ _. on_error-committed (succ64 latest)))

-- If DeleteProject answers with an error, the durable projects, objects and caches are as before,
-- whichever connections, statements and commits fail.
remove_project-atomic :
    (auth : Auth) (project : ℤ) (s : Session) (e : Error)
    → (remove_project auth project s).0 ≡ err e
    → Same s (remove_project auth project s).1
unfolding remove_project delete_project
remove_project-atomic auth project = on_error-close _ (
    on_error->>= _ _ (Keeps-lift _) λ _. on_error->>= _ _ (Keeps-catch _ _ Keeps-connect) λ _.
      on_error->>= _ _ (Keeps-catch _ _ (Keeps->>= _ _ (Keeps-exec _) λ _. Keeps-exec _))
        λ _. on_error-last)

-- If Rollback answers with an error, the durable projects, objects and caches are as before,
-- whichever connections, statements and commits fail.
rollback-atomic :
    (auth : Auth) (project version : ℤ) (s : Session) (e : Error)
    → (rollback auth project version s).0 ≡ err e
    → Same s (rollback auth project version s).1
unfolding rollback
rollback-atomic auth project version = on_error-close _ (
    on_error->>= _ _ (Keeps-lift _) λ _. on_error->>= _ _ (Keeps-catch _ _ Keeps-connect) λ _.
      on_error->>= _ _ (Keeps-catch _ _ (Keeps-reset_project project version)) λ _. on_error-last)

-- If Reset answers with an error, the durable projects, objects and caches are as before, whichever
-- connections, statements and commits fail.
reset-atomic :
    (auth : Auth) (env : Env) (projects : List ProjectVersion) (s : Session) (e : Error)
    → (reset auth env projects s).0 ≡ err e
    → Same s (reset auth env projects s).1
unfolding reset
reset-atomic auth env projects = on_error-close _ (
    on_error->>= _ _ (Keeps-lift _) λ _. on_error->>= _ _ (Keeps-lift _) λ _.
      on_error->>= _ _ (Keeps-catch _ _ Keeps-connect)
        λ _. on_error->>= _ _ (Keeps-reset_named auth projects) λ _. on_error-last)

-- The requests of an administrator that write in one transaction.
pub data Request : Type 0 where
  new_project_request : ℤ → Option ℤ → List Bytes → Request
  clone_to_project_request : ℤ → ℤ → ℤ → Request
  delete_project_request : ℤ → Request
  rollback_request : ℤ → ℤ → Request
  reset_request : List ProjectVersion → Request

abbrev pub without_response {ℓ} : {A : Type ℓ} → Result A × Session → Result (Unit {0}) × Session
without_response (ok a, t) = (ok tt, t)
without_response (err e, t) = (err e, t)

-- The handler of a request, its response left out.
unfoldable pub handle : Auth → Env → Request → Tx (Unit {0})
handle auth env (new_project_request id template pack_patterns) s =
    without_response (new_project auth id template pack_patterns s)
handle auth env (clone_to_project_request source target version) s =
    without_response (clone_project auth source target version s)
handle auth env (delete_project_request project) s =
    without_response (remove_project auth project s)
handle auth env (rollback_request project version) s =
    without_response (rollback auth project version s)
handle auth env (reset_request projects) s = without_response (reset auth env projects s)

Same-without {ℓ} :
    {A : Type ℓ} (s : Session) (x : Result A × Session) (e : Error)
    → (x.0 ≡ err e → Same s x.1)
    → (without_response x).0 ≡ err e
    → Same s (without_response x).1
Same-without s (ok a, t) e same h = cc
Same-without s (err d, t) e same h = let q : d ≡ e = cc in same (ap err q)

-- If NewProject, CloneToProject, DeleteProject, Rollback or Reset answers with an error, the durable
-- projects, objects and caches are as before, whichever connections, statements and commits fail.
pub handle-atomic :
    (auth : Auth) (env : Env) (request : Request) (s : Session) (e : Error)
    → (handle auth env request s).0 ≡ err e
    → Same s (handle auth env request s).1
unfolding handle
handle-atomic auth env (new_project_request id template pack_patterns) s e =
    Same-without s _ e (new_project-atomic auth id template pack_patterns s e)
handle-atomic auth env (clone_to_project_request source target version) s e =
    Same-without s _ e (clone_project-atomic auth source target version s e)
handle-atomic auth env (delete_project_request project) s e =
    Same-without s _ e (remove_project-atomic auth project s e)
handle-atomic auth env (rollback_request project version) s e =
    Same-without s _ e (rollback-atomic auth project version s e)
handle-atomic auth env (reset_request projects) s e =
    Same-without s _ e (reset-atomic auth env projects s e)
