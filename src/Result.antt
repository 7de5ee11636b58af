-- ===== src/Result.antt =====
-- Errors as values: the error returns of internal/db, pkg/api/fs.go and pkg/client, with the gRPC status codes
-- that the handlers choose. Messages and wrapped causes are left out; a Go panic is a value too.
use dateilager.Prelude.{◌⊎◌, inl, inr, ◌≡◌, refl}

-- google.golang.org/grpc/codes, as far as the handlers name them.
pub data Code : Type 0 where
  invalid_argument permission_denied unavailable internal not_found already_exists : Code
  unimplemented unknown unauthenticated : Code

pub data Error : Type 0 where
  -- the connection or the statement failed
  query_failed : Error
  -- SQLSTATE 23505 and 23502
  unique_violation not_null_violation : Error
  -- db.ErrNotFound, "project id already exists", db.ErrEmptyPack
  no_such_project project_exists empty_pack : Error
  -- "pack patterns do not match", an undecodable content, "returned non-nil hash"
  pack_mismatch bad_content cached_object : Error
  -- archive/tar refuses a header
  bad_entry : Error
  panic : Error
  -- errors of the client: an operation on files, a number or a state text that does not parse, a
  -- response that does not fit the earlier ones
  file_failed bad_number bad_state bad_response : Error
  -- fs.ErrNotExist, context.Canceled, a cache that was not prepared, a link to nothing, and a name
  -- of no environment
  no_such_file cancelled no_cache bad_link no_environment : Error
  -- the fuel of a loop of the model ran out
  out_of_fuel : Error
  status : Code → Error

pub data Result {ℓ} (A : Type ℓ) : Type ℓ where
  ok : A → Result A
  err : Error → Result A

infixl 10 ◌>>=◌
abbrev pub ◌>>=◌ {ℓ κ} : {A : Type ℓ} {B : Type κ} → Result A → (A → Result B) → Result B
ok a >>= next = next a
err e >>= next = err e

pub >>=-eq-ok {ℓ κ} :
    {A : Type ℓ} {B : Type κ} (m : Result A) (next : A → Result B) {b : B}
    → (m >>= next) ≡ ok b
    → (a : A) × (m ≡ ok a) × (next a ≡ ok b)
>>=-eq-ok (ok a) next h = (a, refl, h)
>>=-eq-ok (err e) next h = cc

pub Result-cases {ℓ} :
    {A : Type ℓ} (r : Result A) → ((a : A) × (r ≡ ok a)) ⊎ ((e : Error) × (r ≡ err e))
Result-cases (ok a) = inl (a, refl)
Result-cases (err e) = inr (e, refl)
