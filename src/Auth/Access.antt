-- ===== src/Auth/Access.antt =====
-- internal/auth/auth.go and pkg/api/fs.go: what the checks grant to each role.
use dateilager.Prelude.{◌≡◌, ◌↔◌, arith, ℤ, pos, ◌⊎◌, ◌<ℤ◌, eqb_ℤ_iff}
use dateilager.Result.{Result, ok, ◌>>=◌}
use dateilager.Auth.{Auth, project, require_project_auth, check_project}

-- The two checks at the top of Get, GetCompress and GetUnary.
unfoldable pub may_read : Auth → ℤ → Result (Unit {0})
unfolding require_project_auth check_project
may_read auth requested = require_project_auth auth >>= λ id. check_project id requested

-- A token for a project reads that project, and no other unless its number is negative: such a token
-- reads every project.
pub may_read-project :
    (id requested : ℤ)
    → (may_read (project id) requested ≡ ok tt) ↔ ((requested ≡ id) ⊎ (id <ℤ pos 0))
unfolding may_read
may_read-project id requested =
    (λ e. ground (arith, eqb_ℤ_iff requested id), λ e. ground (arith, eqb_ℤ_iff requested id))
