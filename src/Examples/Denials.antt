-- ===== src/Examples/Denials.antt =====
-- pkg/api/fs.go on requests that are refused.
use dateilager.Prelude.{◌≡◌, ◌≢◌, none, [], pos}
use dateilager.Result.{err, status, unimplemented}
use dateilager.Auth.{admin, shared_reader}
use dateilager.Db.Session.{Session, calm}
use dateilager.Api.Fs.{
  dev, test, prod, new_project, clone_project, remove_project, show_projects, rollback, snapshot,
  reset, gc_project, gc_random_projects, gc_contents,
}
use dateilager.Api.Fs.Denied.{denied, rolled_back, writes_denied, reset_unimplemented}
use dateilager.Examples.{two_versions}

abbrev idle : Session
idle = calm two_versions two_versions

reader_differs : shared_reader ≢ admin
reader_differs e = cc e

writes_denied_example :
    (new_project shared_reader (pos 1) none [] idle ≡ denied (rolled_back idle))
    × (clone_project shared_reader (pos 1) (pos 2) (pos 1) idle ≡ denied (rolled_back idle))
    × (remove_project shared_reader (pos 1) idle ≡ denied (rolled_back idle))
    × (show_projects shared_reader idle ≡ denied (rolled_back idle))
    × (rollback shared_reader (pos 1) (pos 1) idle ≡ denied (rolled_back idle))
    × (gc_project shared_reader (pos 1) (pos 1) none idle ≡ denied idle)
    × (gc_random_projects shared_reader (λ round rows. []) (pos 1) none idle ≡ denied idle)
    × (gc_contents shared_reader (λ rows. []) idle ≡ denied idle)
writes_denied_example =
    writes_denied shared_reader idle (pos 1) (pos 2) (pos 1) (pos 1) none none [] (λ round rows. [])
      (λ rows. []) reader_differs

prod_differs : prod ≢ dev
prod_differs e = cc e

prod_no_test : prod ≢ test
prod_no_test e = cc e

reset_unimplemented_example :
    (snapshot admin prod idle ≡ (err (status unimplemented), rolled_back idle))
    × (reset admin prod [] idle ≡ (err (status unimplemented), rolled_back idle))
reset_unimplemented_example = reset_unimplemented admin prod idle [] prod_differs prod_no_test
