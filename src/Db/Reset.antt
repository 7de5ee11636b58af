-- ===== src/Db/Reset.antt =====
-- internal/db/reset.go: rolling projects back, and dropping them.
pub mod Rollback
pub mod Trees
use dateilager.Prelude.{
  refl, ◌≡◌, Bool, true, false, not, ◌&&◌, Option, none, some, List, [], ◌∷◌, map, ℤ, eqb_ℤ, ltb_ℤ,
  ltb, ◌==◌, any, filter, if◌then◌else◌,
}
use dateilager.Result.{Result, ok, err, ◌>>=◌ as and_then}
use dateilager.Db.Schema.{ProjectRow, ObjectRow, Tables, update_rows, checked, is_unique}
use dateilager.Db.Query.{stops_after}
use dateilager.Db.Session.{Tx, Statement, exec, ◌>>=◌, ◌>>◌}
use dateilager.Db.Project.{set_latest, delete_objects, delete_projects}

-- ResetAll: dl.cache_versions is kept
unfoldable pub reset_all : Tx (Unit {0})
reset_all = do
  exec (λ t. ok (tt, record t { projects = [] }))
  exec (λ t. ok (tt, record t { objects = [] }))
  exec (λ t. ok (tt, record t { contents = [] }))

-- UPDATE dl.objects SET … WHERE …
unfoldable pub set_rows : (ObjectRow → Bool) → (ObjectRow → ObjectRow) → Statement (Unit {0})
set_rows p f t = elim (checked (update_rows p f t.objects)) [
  | ok rows ↦ ok (tt, record t { objects = rows })
  | err e ↦ err e
]

unfoldable pub is_started_after : ℤ → ℤ → ObjectRow → Bool
is_started_after project version r = eqb_ℤ r.project project && ltb_ℤ version r.start_version

unfoldable pub is_stopped_after : ℤ → ℤ → ObjectRow → Bool
is_stopped_after project version r = eqb_ℤ r.project project && stops_after version r.stop_version

abbrev pub revive : ObjectRow → ObjectRow
revive r = record r { stop_version = none }

-- ResetProject
unfoldable pub reset_project : ℤ → ℤ → Tx (Unit {0})
reset_project project version = do
  exec (set_latest project version)
  exec (delete_objects (is_started_after project version))
  exec (set_rows (is_stopped_after project version) revive)

-- DropOtherProjects
unfoldable pub drop_other_projects : List ℤ → Tx (Unit {0})
drop_other_projects projects = do
  exec (delete_projects (λ r. not (any (eqb_ℤ r.id) projects)))
  exec (delete_objects (λ r. not (any (eqb_ℤ r.project) projects)))

-- An UPDATE that leaves the indexes unique takes effect.
pub set_rows-ok :
    (p : ObjectRow → Bool) (f : ObjectRow → ObjectRow) (t : Tables) (rows : List ObjectRow)
    → update_rows p f t.objects ≡ rows
    → is_unique rows ≡ true
    → set_rows p f t ≡ ok (tt, record t { objects = rows })
unfolding set_rows checked
set_rows-ok p f t rows e u = rw (e, set_rows) (rw (u, checked) refl)
