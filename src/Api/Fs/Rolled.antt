-- ===== src/Api/Fs/Rolled.antt =====
-- pkg/api/fs.go, Rollback: what it makes durable when nothing fails.
use dateilager.Prelude.{◌≡◌, refl, ◌∙◌, ap, true, ℤ, ◌≤ℤ◌, Bytes}
use dateilager.Result.{ok}
use dateilager.Auth.{admin, require_admin_auth}
use dateilager.Db.Schema.{Tables, is_unique}
use dateilager.Db.Session.{calm, catch, close, ◌>>=◌}
use dateilager.Db.History.{tree_at, OneLive}
use dateilager.Db.Reset.Rollback.{after_rollback, reset_project-calm, tree_at-rolled_back_later}
use dateilager.Api.Fs.{rollback}

rollback-calm :
    (p v : ℤ) (t c : Tables)
    → OneLive p c.objects
    → is_unique c.objects ≡ true
    → rollback admin p v (calm t c) ≡ (ok tt, calm (after_rollback p v c) (after_rollback p v c))
unfolding rollback require_admin_auth catch close ◌>>=◌
rollback-calm p v t c one u = rw (reset_project-calm p v c c one u) refl

-- If no connection, statement or commit fails, Rollback answers an administrator without an error, and
-- from then on the durable tree of the project at every version from `v` on is the tree that it had
-- at `v`, in tables with unique rows where no version shows two rows at one path.
pub rollback-durable :
    (p v w : ℤ) (path : Bytes) (t c : Tables)
    → OneLive p c.objects
    → is_unique c.objects ≡ true
    → v ≤ℤ w
    → ((rollback admin p v (calm t c)).0 ≡ ok tt)
      × (tree_at (rollback admin p v (calm t c)).1.committed.objects p w path
          ≡ tree_at c.objects p v path)
unfolding after_rollback
rollback-durable p v w path t c one u le =
    let e = rollback-calm p v t c one u in
    (
      ap (λ x. x.0) e,
      ap (λ x. tree_at x.1.committed.objects p w path) e
          ∙ tree_at-rolled_back_later p v c.objects one w path le,
    )
