-- ===== src/Server/Admission.antt =====
-- Who gets past the interceptors of pkg/server/server.go.
use dateilager.Prelude.{
  ◌≡◌, ◌≢◌, ◌↔◌, refl, ap, ◌∙◌, inl, inr, true, Bool-cases, Option, none, some, List, [], ◌∷◌, ◌++◌,
  Bytes, has_prefix, has_prefix-append, drop, length, arith,
}
use dateilager.Result.{ok, ◌>>=◌, >>=-eq-ok}
use dateilager.Auth.{Auth, no_auth, admin, shared_reader, project, validate}
use dateilager.Server.{bearer, get_token, known_role, validate_token_stream}

drop-prefix :
    (text front : Bytes) → has_prefix text front ≡ true → text ≡ front ++ drop (length front) text
unfolding has_prefix
drop-prefix text [] h = refl
drop-prefix [] (c ∷ cs) h = cc
drop-prefix (b ∷ bs) (c ∷ cs) h = ground (arith, drop-prefix bs cs)

drop-append : (front rest : Bytes) → drop (length front) (front ++ rest) ≡ rest
drop-append [] rest = refl
drop-append (c ∷ front) rest = drop-append front rest

get_token-ok :
    (values : List Bytes) (token : Bytes)
    → get_token values ≡ ok token
    → values ≡ (bearer ++ token) ∷ []
unfolding get_token
get_token-ok [] token h = cc
get_token-ok (value ∷ []) token h = elim (Bool-cases (has_prefix value bearer)) [
  | inl e ↦
      let same : drop (length bearer) value ≡ token = cc (rw e at h) in
      ap (λ t. t ∷ []) (drop-prefix value bearer e ∙ ap (λ t. bearer ++ t) same)
  | inr e ↦ cc (rw e at h)
]
get_token-ok (value ∷ other ∷ values) token h = cc

get_token-bearer : (token : Bytes) → get_token ((bearer ++ token) ∷ []) ≡ ok token
unfolding get_token
get_token-bearer token = rw (has_prefix-append bearer token) (ap ok (drop-append bearer token))

known_role-ok : (found : Option Auth) (auth : Auth) → known_role found ≡ ok auth → found ≡ some auth
known_role-ok none auth h = cc
known_role-ok (some no_auth) auth h = cc
known_role-ok (some admin) auth h = cc h
known_role-ok (some shared_reader) auth h = cc h
known_role-ok (some (project id)) auth h = cc h

project-role :
    (found : Option Auth) (auth : Auth)
    → auth ≢ no_auth
    → found ≡ some auth
    → known_role found ≡ ok auth
project-role none auth n h = cc
project-role (some no_auth) auth n h = absurd (n (cc h))
project-role (some admin) auth n h = cc h
project-role (some shared_reader) auth n h = cc h
project-role (some (project id)) auth n h = cc h

validate-ne-no_auth :
    (verify : Bytes → Option Bytes) (token : Bytes) (auth : Auth)
    → validate verify token ≡ some auth
    → auth ≢ no_auth
unfolding validate
validate-ne-no_auth verify token auth h e = ground arith

-- A streaming request reaches its handler with some auth exactly if its metadata hold one value for
-- the authorization, which is the word Bearer and a token that verifies and whose subject gives that
-- auth.
pub validate_token_stream_lem :
    (verify : Bytes → Option Bytes) (values : List Bytes) (auth : Auth)
    → (validate_token_stream verify (some values) ≡ ok auth)
      ↔ ((token : Bytes) × (values ≡ (bearer ++ token) ∷ []) × (validate verify token ≡ some auth))
unfolding validate_token_stream
validate_token_stream_lem verify values auth = (
  λ h.
      let (token, t, k) = >>=-eq-ok (get_token values) (λ x. known_role (validate verify x)) h in
      (token, get_token-ok values token t, known_role-ok (validate verify token) auth k),
  λ (token, e, v).
      ap (λ x. get_token x >>= λ y. known_role (validate verify y)) e
      ∙ ap (λ x. x >>= λ y. known_role (validate verify y)) (get_token-bearer token)
      ∙ project-role (validate verify token) auth (validate-ne-no_auth verify token auth v) v,
)
