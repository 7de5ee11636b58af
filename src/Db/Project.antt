-- ===== src/Db/Project.antt =====
-- internal/db/project.go and internal/db/inspect.go: the rows of dl.projects.
use dateilager.Prelude.{
  ℕ, zero, suc, Bool, true, false, not, ◌&&◌, none, some, List, [], ◌∷◌, map, ℤ, pos, eqb_ℤ, ◌==◌,
  Bytes, bytes_eq, any, filter, find, length, if◌then◌else◌,
}
use dateilager.Result.{Error, ok, err, unique_violation, no_such_project, project_exists}
use dateilager.Db.Schema.{Hash, ProjectRow, ObjectRow, ContentRow, is_project}
use dateilager.Db.Session.{Tx, Statement, exec, exec_outside, catch, pure, ◌>>=◌, ◌>>◌}

-- pb.Project
pub record ProjectVersion : Type 0 where
  pub id : ℤ
  pub version : ℤ

unfoldable pub insert_project : ℤ → List Bytes → Statement (Unit {0})
unfolding is_project
insert_project project pack_patterns t =
    if any (is_project project) t.projects
    then err unique_violation
    else ok (
      tt,
      record t {
        projects =
            record { id = project; latest_version = pos 0; pack_patterns = pack_patterns }
            ∷ t.projects;
      },
    )

abbrev as_project_exists : Error → Error
as_project_exists unique_violation = project_exists
as_project_exists e = e

-- CreateProject
unfoldable pub create_project : ℤ → List Bytes → Tx (Unit {0})
create_project project pack_patterns =
    catch as_project_exists (exec (insert_project project pack_patterns))

-- DELETE FROM dl.objects WHERE project = $1
unfoldable pub delete_objects : (ObjectRow → Bool) → Statement (Unit {0})
delete_objects p t = ok (tt, record t { objects = filter (λ r. not (p r)) t.objects })

unfoldable pub delete_projects : (ProjectRow → Bool) → Statement (Unit {0})
delete_projects p t = ok (tt, record t { projects = filter (λ r. not (p r)) t.projects })

-- DeleteProject
unfoldable pub delete_project : ℤ → Tx (Unit {0})
delete_project project = do
  exec (delete_objects (λ r. eqb_ℤ r.project project))
  exec (delete_projects (is_project project))

-- ListProjects
unfoldable pub list_projects : Tx (List ProjectVersion)
list_projects =
    exec (λ t. ok (map (λ r. record { id = r.id; version = r.latest_version }) t.projects, t))

-- The rounds of RandomProjects that are left. `sample` is what TABLESAMPLE selects in each of them.
random_rounds : ℕ → (ℕ → List ProjectRow → List ℤ) → Tx (List ℤ)
random_rounds zero sample = pure []
random_rounds (suc rounds) sample = do
  projects ← exec_outside (λ t. ok (sample rounds t.projects, t))
  if length projects == 0 then random_rounds rounds sample else pure projects

-- RandomProjects
unfoldable pub random_projects : (ℕ → List ProjectRow → List ℤ) → Tx (List ℤ)
unfolding random_rounds
random_projects = random_rounds 5

-- RandomContents, of internal/db/content.go
unfoldable pub random_contents : (List ContentRow → List Hash) → Tx (List Hash)
random_contents sample = exec_outside (λ t. ok (sample t.contents, t))

-- getLatestVersion and LockLatestVersion, which also locks the row
unfoldable pub select_latest : ℤ → Statement ℤ
select_latest project t = elim (find (is_project project) t.projects) [
  | none ↦ err no_such_project
  | some r ↦ ok (r.latest_version, t)
]

unfoldable pub get_latest_version : ℤ → Tx ℤ
get_latest_version project = exec (select_latest project)

unfoldable pub lock_latest_version : ℤ → Tx ℤ
lock_latest_version project = exec (select_latest project)

unfoldable pub patterns_of : ℤ → List ProjectRow → List Bytes
patterns_of project rows = elim (find (is_project project) rows) [
  | none ↦ []
  | some r ↦ r.pack_patterns
]

unfoldable pub same_patterns : List Bytes → List Bytes → Bool
same_patterns [] [] = true
same_patterns [] (q ∷ qs) = false
same_patterns (p ∷ ps) [] = false
same_patterns (p ∷ ps) (q ∷ qs) = bytes_eq p q && same_patterns ps qs

-- HasSamePackPattern
unfoldable pub has_same_pack_pattern : ℤ → ℤ → Tx Bool
unfolding same_patterns patterns_of
has_same_pack_pattern project_1 project_2 =
    exec λ t.
      ok (same_patterns (patterns_of project_1 t.projects) (patterns_of project_2 t.projects), t)

-- TotalObjectsCount
unfoldable pub total_objects_count : ℤ → Tx ℤ
total_objects_count project =
    exec λ t. ok (pos (length (filter (λ r. eqb_ℤ r.project project) t.objects)), t)

-- The rows after UPDATE dl.projects SET latest_version = $1 WHERE id = $2.
unfoldable pub set_versions : ℤ → ℤ → List ProjectRow → List ProjectRow
unfolding is_project
set_versions project version rows =
    map (λ r. if is_project project r then record r { latest_version = version } else r) rows

-- The statement of UpdateLatestVersion and ResetProject.
unfoldable pub set_latest : ℤ → ℤ → Statement (Unit {0})
set_latest project version t =
    ok (tt, record t { projects = set_versions project version t.projects })

-- UpdateLatestVersion, of internal/db/update.go
unfoldable pub update_latest_version : ℤ → ℤ → Tx (Unit {0})
update_latest_version project version = exec (set_latest project version)
