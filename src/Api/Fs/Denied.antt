-- ===== src/Api/Fs/Denied.antt =====
-- pkg/api/fs.go: the handlers that are kept for administrators, and for development.
use dateilager.Prelude.{◌≡◌, ◌≢◌, refl, Option, List, ℤ, ℕ, Bytes}
use dateilager.Result.{Result, err, status, permission_denied, unimplemented}
use dateilager.Auth.{Auth, admin, no_auth, shared_reader, require_admin_auth}
use dateilager.Db.Schema.{Hash, ProjectRow, ContentRow}
use dateilager.Db.Session.{Session, close, ◌>>=◌}
use dateilager.Db.Project.{ProjectVersion}
use dateilager.Api.Fs.{
  Env, dev, test, prod, unset, new_project, clone_project, remove_project, show_projects, rollback,
  snapshot, reset, gc_project, gc_random_projects, gc_contents, check_env,
}

pub not_admin :
    (auth : Auth) → auth ≢ admin → require_admin_auth auth ≡ err (status permission_denied)
unfolding require_admin_auth
not_admin no_auth h = refl
not_admin (Auth.project id) h = refl
not_admin shared_reader h = refl
not_admin admin h = absurd (h refl)

abbrev pub denied {ℓ} : {A : Type ℓ} → Session → Result A × Session
denied s = (err (status permission_denied), s)

-- The session after a transaction that was not committed.
abbrev pub rolled_back : Session → Session
rolled_back s = record s { view = s.committed }

-- Whoever is not an administrator is denied by NewProject, CloneToProject, DeleteProject,
-- ListProjects, Rollback, GcProject, GcRandomProjects and GcContents, and nothing durable changes.
pub writes_denied :
    (auth : Auth) (s : Session) (p q v keep : ℤ) (template from_version : Option ℤ)
    (patterns : List Bytes) (projects : ℕ → List ProjectRow → List ℤ)
    (contents : List ContentRow → List Hash)
    → auth ≢ admin
    → (new_project auth p template patterns s ≡ denied (rolled_back s))
      × (clone_project auth p q v s ≡ denied (rolled_back s))
      × (remove_project auth p s ≡ denied (rolled_back s))
      × (show_projects auth s ≡ denied (rolled_back s))
      × (rollback auth p v s ≡ denied (rolled_back s))
      × (gc_project auth p keep from_version s ≡ denied s)
      × (gc_random_projects auth projects keep from_version s ≡ denied s)
      × (gc_contents auth contents s ≡ denied s)
unfolding new_project clone_project remove_project show_projects rollback gc_project
    gc_random_projects gc_contents close ◌>>=◌
writes_denied auth s p q v keep template from_version patterns projects contents h =
    rw (not_admin auth h) (refl, refl, refl, refl, refl, refl, refl, refl)

-- Snapshot and Reset answer that they are not implemented unless the server runs in the development
-- or the test environment, for everyone, and then nothing durable changes.
pub reset_unimplemented :
    (auth : Auth) (env : Env) (s : Session) (projects : List ProjectVersion)
    → env ≢ dev
    → env ≢ test
    → (snapshot auth env s ≡ (err (status unimplemented), rolled_back s))
      × (reset auth env projects s ≡ (err (status unimplemented), rolled_back s))
unfolding snapshot reset check_env close ◌>>=◌
reset_unimplemented auth dev s projects h k = absurd (h refl)
reset_unimplemented auth test s projects h k = absurd (k refl)
reset_unimplemented auth prod s projects h k = (refl, refl)
reset_unimplemented auth unset s projects h k = (refl, refl)
