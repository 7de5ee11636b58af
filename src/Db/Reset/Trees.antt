-- ===== src/Db/Reset/Trees.antt =====
-- internal/db/reset.go, ResetProject: the trees that a rollback leaves.
use dateilager.Prelude.{subst, sym, ◌⊎◌, inl, inr, ◌≡◌, ◌≢◌, ap, true, List, ℤ, ◌≤ℤ◌, Bytes}
use dateilager.Db.Schema.{ObjectRow, Tables, is_unique}
use dateilager.Db.Session.{calm}
use dateilager.Db.History.{tree_at, OneLive}
use dateilager.Db.Reset.{reset_project}
use dateilager.Db.Reset.Rollback.{
  rolled_back, after_rollback, reset_project-calm, tree_at-rolled_back, tree_at-rolled_back_later,
  tree_at-rolled_back_other,
}

-- The rows that the transaction sees after ResetProject, when no statement fails.
abbrev pub reset_rows : ℤ → ℤ → Tables → Tables → List ObjectRow
reset_rows p v t c = (reset_project p v (calm t c)).1.view.objects

reset_rows-rolled_back :
    (p v : ℤ) (t c : Tables)
    → OneLive p t.objects
    → is_unique t.objects ≡ true
    → reset_rows p v t c ≡ rolled_back p v t.objects
unfolding after_rollback
reset_rows-rolled_back p v t c one u = ap (λ x. x.1.view.objects) (reset_project-calm p v t c one u)

-- After a rollback of a project to version `v`, its versions up to `v` are as they were, in tables
-- with unique rows where no version shows two rows at one path.
reset_project-before :
    (p v w : ℤ) (path : Bytes) (t c : Tables)
    → OneLive p t.objects
    → is_unique t.objects ≡ true
    → w ≤ℤ v
    → tree_at (reset_rows p v t c) p w path ≡ tree_at t.objects p w path
reset_project-before p v w path t c one u le =
    rw (reset_rows-rolled_back p v t c one u) (tree_at-rolled_back p v t.objects one w path le)

-- After a rollback of a project to version `v`, its versions from `v` on all are what `v` was, in
-- tables with unique rows where no version shows two rows at one path.
pub reset_project-later :
    (p v w : ℤ) (path : Bytes) (t c : Tables)
    → OneLive p t.objects
    → is_unique t.objects ≡ true
    → v ≤ℤ w
    → tree_at (reset_rows p v t c) p w path ≡ tree_at t.objects p v path
reset_project-later p v w path t c one u le =
    rw (reset_rows-rolled_back p v t c one u)
      (tree_at-rolled_back_later p v t.objects one w path le)

-- A rollback of a project leaves every version of another project as it was, in tables with unique
-- rows where no version shows two rows of the rolled back project at one path.
reset_project-other :
    (p v q w : ℤ) (path : Bytes) (t c : Tables)
    → OneLive p t.objects
    → is_unique t.objects ≡ true
    → q ≢ p
    → tree_at (reset_rows p v t c) q w path ≡ tree_at t.objects q w path
reset_project-other p v q w path t c one u ne =
    rw (reset_rows-rolled_back p v t c one u)
      (tree_at-rolled_back_other p v t.objects one q w path ne)

-- A rollback of a project to version `v` leaves its versions up to `v`, and every version of another
-- project, as they were, in tables with unique rows where no version of the rolled back project
-- shows two rows at one path.
pub reset_project-apart :
    (p v q w : ℤ) (path : Bytes) (t c : Tables)
    → OneLive p t.objects
    → is_unique t.objects ≡ true
    → ((q ≡ p) × (w ≤ℤ v)) ⊎ (q ≢ p)
    → tree_at (reset_rows p v t c) q w path ≡ tree_at t.objects q w path
reset_project-apart p v q w path t c one u (inl (e, le)) =
    subst (λ x. tree_at (reset_rows p v t c) x w path ≡ tree_at t.objects x w path) (sym e)
      (reset_project-before p v w path t c one u le)
reset_project-apart p v q w path t c one u (inr ne) = reset_project-other p v q w path t c one u ne
