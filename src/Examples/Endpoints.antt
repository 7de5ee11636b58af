-- ===== src/Examples/Endpoints.antt =====
-- internal/auth and pkg/api on concrete requests: what is granted, and what a failure leaves.
use dateilager.Prelude.{
  ◌⊎◌, ◌<ℤ◌, ◌≢◌, codes, arith, ◌≡◌, refl, ◌↔◌, true, false, [], ◌∷◌, pos, negsuc, arith,
}
use dateilager.Result.{ok, err, status, internal}
use dateilager.Auth.{Auth, project, admin, no_auth}
use dateilager.Auth.Access.{may_read, may_read-project}
use dateilager.Db.Session.{Session, calm}
use dateilager.Db.Session.Keeps.{Same}
use dateilager.Api.Fs.{dev, rollback}
use dateilager.Api.Fs.Update.{request, update}
use dateilager.Api.Fs.Atomic.{update-atomic}
use dateilager.Api.Fs.Rolled.{rollback-durable}
use dateilager.Api.Fs.Isolated.Token.{fresh_session, update-isolated}
use dateilager.Db.History.{tree_at}
use dateilager.Api.Fs.Atomic.Admin.{rollback_request, handle, handle-atomic}
use dateilager.Examples.{
  two_versions-OneLive, two_versions_unique, plain_codec, two_versions, third_a,
}

may_read-project_example :
    (may_read (project (pos 7)) (pos 8) ≡ ok tt) ↔ ((pos 8 ≡ pos 7) ⊎ (pos 7 <ℤ pos 0))
may_read-project_example = may_read-project (pos 7) (pos 8)

-- The connection succeeds, and the statement after it fails.
abbrev second_fails : Session
second_fails = record { view = two_versions; committed = two_versions; faults = false ∷ true ∷ [] }

update_fails :
    (update plain_codec (λ packs. packs) admin (request (pos 1) third_a ∷ []) second_fails).0
    ≡ err (status internal)
unfolding update dateilager.Db.Session.close dateilager.Db.Session.◌>>=◌
    dateilager.Auth.require_project_auth dateilager.Db.Session.catch
    dateilager.Db.Pack.new_pack_manager
update_fails = refl

update-atomic_example :
    Same second_fails
      (update plain_codec (λ packs. packs) admin (request (pos 1) third_a ∷ []) second_fails).1
update-atomic_example =
    update-atomic plain_codec (λ packs. packs) admin (request (pos 1) third_a ∷ []) second_fails
      (status internal) update_fails

handle_fails :
    (handle admin dev (rollback_request (pos 1) (pos 1)) second_fails).0 ≡ err (status internal)
unfolding handle rollback dateilager.Db.Session.close dateilager.Db.Session.◌>>=◌
    dateilager.Auth.require_admin_auth dateilager.Db.Session.catch dateilager.Db.Reset.reset_project
handle_fails = refl

handle-atomic_example :
    Same second_fails (handle admin dev (rollback_request (pos 1) (pos 1)) second_fails).1
handle-atomic_example =
    handle-atomic admin dev (rollback_request (pos 1) (pos 1)) second_fails (status internal)
      handle_fails

own_project : pos 2 ≢ negsuc 0
own_project e = ground arith

other_project : pos 1 ≢ pos 2
other_project e = ground arith

update-isolated_example :
    tree_at
      (update plain_codec
        (λ packs. packs)
        (project (pos 2))
        (request (pos 2) third_a ∷ [])
        (fresh_session two_versions [])).1.committed.objects
      (pos 1)
      (pos 2)
      (codes "a")
    ≡ tree_at two_versions.objects (pos 1) (pos 2) (codes "a")
update-isolated_example =
    update-isolated plain_codec (λ packs. packs) (pos 2) (pos 1) (pos 2) (codes "a")
      (request (pos 2) third_a ∷ []) two_versions [] own_project other_project

rollback-durable_example :
    ((rollback admin (pos 1) (pos 1) (calm two_versions two_versions)).0 ≡ ok tt)
    × (tree_at
          (rollback admin (pos 1) (pos 1) (calm two_versions two_versions)).1.committed.objects
          (pos 1)
          (pos 2)
          (codes "a")
        ≡ tree_at two_versions.objects (pos 1) (pos 1) (codes "a"))
rollback-durable_example =
    rollback-durable (pos 1) (pos 1) (pos 2) (codes "a") two_versions two_versions
      two_versions-OneLive two_versions_unique (omega arith)
