-- ===== src/Auth.antt =====
-- internal/auth/auth.go and the checks at the top of pkg/api/fs.go: who may do what.
pub mod Access
use dateilager.Prelude.{
  ◌≡◌, Bool, true, false, Option, none, some, List, [], ◌∷◌, ℕ, zero, suc, ◌+◌, ◌-◌, ◌*◌, ◌^◌, ℤ,
  pos, negsuc, ltb_ℤ, eqb_ℤ, not, ◌&&◌, ltb, leb, ◌==◌, Bytes, bytes_eq, codes, if◌then◌else◌,
}
use dateilager.Decimal.{parse_int}
use dateilager.Result.{Code, permission_denied, status, Result, ok, err}

-- auth.Auth; the Project pointer is set exactly for the role Project
pub data Auth : Type 0 where
  no_auth : Auth
  project : ℤ → Auth
  admin : Auth
  shared_reader : Auth

-- AuthValidator.Validate: `verify` is paseto's check of the token's signature, with the subject
unfoldable pub validate : (Bytes → Option Bytes) → Bytes → Option Auth
validate verify token = elim (verify token) [
  | none ↦ none
  | some subject ↦
      if bytes_eq subject (codes "admin")
      then some admin
      else if bytes_eq subject (codes "shared-reader")
      then some shared_reader
      else elim (parse_int subject) [ none ↦ none | some id ↦ some (project id) ]
]

-- requireAdminAuth
unfoldable pub require_admin_auth : Auth → Result (Unit {0})
require_admin_auth admin = ok tt
require_admin_auth _ = err (status permission_denied)

-- requireProjectAuth: -1 stands for every project
unfoldable pub require_project_auth : Auth → Result ℤ
require_project_auth admin = ok (negsuc 0)
require_project_auth (project id) = ok id
require_project_auth _ = err (status permission_denied)

-- requireSharedReaderAuth
unfoldable pub require_shared_reader_auth : Auth → Result (Unit {0})
require_shared_reader_auth admin = ok tt
require_shared_reader_auth (project id) = ok tt
require_shared_reader_auth shared_reader = ok tt
require_shared_reader_auth no_auth = err (status permission_denied)

-- if project > -1 && req.Project != project { … }, of Get, GetCompress and GetUnary
unfoldable pub check_project : ℤ → ℤ → Result (Unit {0})
check_project own requested =
    if ltb_ℤ (negsuc 0) own && not (eqb_ℤ requested own)
    then err (status permission_denied)
    else ok tt
