-- ===== src/Server.antt =====
-- pkg/server/server.go: the interceptors that admit a request, before a handler of pkg/api runs.
--
-- The metadata of a request are its values for the key authorization, or nothing. grpc-go calls an
-- interceptor before each handler; the auth of an admitted request is the one that handlers read.
pub mod Admission
use dateilager.Prelude.{
  ◌≡◌, ◌↔◌, ◌⊎◌, inl, inr, refl, ap, sym, ◌∙◌, Bool, true, false, Bool-cases, not, Option, none,
  some, Option-cases, List, [], ◌∷◌, ◌++◌, Bytes, bytes_eq, codes, has_prefix, drop, length,
  if◌then◌else◌, arith,
}
use dateilager.Result.{
  Code, Error, Result, ok, err, status, invalid_argument, permission_denied, unauthenticated, ◌>>=◌,
}
use dateilager.Auth.{Auth, no_auth, validate}

abbrev pub bearer : Bytes
bearer = codes "Bearer "

-- getToken
unfoldable pub get_token : List Bytes → Result Bytes
get_token (value ∷ []) =
    if has_prefix value bearer
    then ok (drop (length bearer) value)
    else err (status unauthenticated)
get_token _ = err (status unauthenticated)

-- err != nil || reqAuth.Role == auth.None
abbrev pub known_role : Option Auth → Result Auth
known_role none = err (status permission_denied)
known_role (some no_auth) = err (status permission_denied)
known_role (some auth) = ok auth

-- validateTokenStream: the auth that the handler gets, or the error that is returned instead
unfoldable pub validate_token_stream : (Bytes → Option Bytes) → Option (List Bytes) → Result Auth
unfolding get_token validate
validate_token_stream verify none = err (status invalid_argument)
validate_token_stream verify (some values) = do
  token ← get_token values
  known_role (validate verify token)

-- What a unary handler is called with: no auth for the health check.
pub data Admitted : Type 0 where
  health_check : Admitted
  with_auth : Auth → Admitted

abbrev pub health_method : Bytes
health_method = codes "/grpc.health.v1.Health/Check"

-- ValidateTokenUnary
unfoldable pub validate_token_unary :
    (Bytes → Option Bytes) → Bytes → Option (List Bytes) → Result Admitted
unfolding validate_token_stream
validate_token_unary verify method none = err (status invalid_argument)
validate_token_unary verify method (some values) =
    if bytes_eq method health_method
    then ok health_check
    else (validate_token_stream verify (some values) >>= λ auth. ok (with_auth auth))
