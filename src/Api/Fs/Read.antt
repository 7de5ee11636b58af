-- ===== src/Api/Fs/Read.antt =====
-- pkg/api/fs.go: Get, GetCompress, Inspect and GetCache, which read; GetUnary is in Read/Unary.
--
-- A handler returns the responses that it sent before it ended, the shared cache of contents, and
-- the error that it ended with, if any.
pub mod Unary
pub mod Served
use dateilager.Prelude.{
  ℕ, suc, ◌≡◌, Bool, true, false, not, ◌&&◌, Option, none, some, List, [], ◌∷◌, ◌++◌, map, ℤ, pos,
  negsuc, Bytes, length, has_prefix, if◌then◌else◌, ltb,
}
use dateilager.Result.{
  Error, Code, Result, ok, err, status, invalid_argument, unavailable, internal, not_found,
  no_such_project, panic,
}
use dateilager.Codec.{Codec}
use dateilager.Auth.{
  Auth, require_admin_auth, require_project_auth, require_shared_reader_auth, check_project,
}
use dateilager.Db.Session.{Session, Tx, pure, lift, connect, catch, close, on_error, ◌>>=◌, ◌>>◌}
use dateilager.Db.Query.{ObjectQuery, VersionRange, QueryBuilder, DbObject}
use dateilager.Db.Project.{total_objects_count}
use dateilager.Db.Cache.{CacheTar, get_cache_tars}
use dateilager.Db.Pack.{new_pack_manager, is_path_packed}
use dateilager.Db.Update.{Object}
use dateilager.Db.Content.{MemoryCache}
use dateilager.Db.Stream.{new_version_range, execute_query}
use dateilager.Db.Stream.Tars.{Tar, Sent, tars_of}
use dateilager.Db.Stream.Objects.{objects_of}
use dateilager.Api.Fs.{as_status, in_status}

-- validateObjectQuery
abbrev validate_ignores : Bytes → List Bytes → Result (Unit {0})
validate_ignores path [] = ok tt
validate_ignores path (ignore ∷ ignores) =
    if not (has_prefix ignore path)
    then err (status invalid_argument)
    else validate_ignores path ignores

unfoldable pub validate_object_query : ObjectQuery → Result (Unit {0})
validate_object_query query =
    if not query.is_prefix && ltb 0 (length query.ignores)
    then err (status invalid_argument)
    else validate_ignores query.path query.ignores

-- The code for an error of NewVersionRange.
abbrev pub as_missing : Error → Error
as_missing no_such_project = status not_found
as_missing e = as_status internal e

-- The checks that Get and GetCompress begin with, and the version range.
unfoldable pub open_range : Auth → ℤ → Option ℤ → Option ℤ → Tx VersionRange
open_range auth project from to = do
  own ← lift (require_project_auth auth)
  lift (check_project own project)
  in_status unavailable connect
  catch as_missing (new_version_range project from to)

module _ {S A : Type 0} where
  abbrev pub failed_with : S → Error → Sent S A
  failed_with s e = record { sent = []; state = s; outcome = err e }

  -- What was sent before comes first.
  abbrev pub sent_after : List A → Sent S A × Session → Sent S A × Session
  sent_after before (r, t) = (record r { sent = before ++ r.sent }, t)

  abbrev pub go_on : (S → Session → Sent S A × Session) → Sent S A × Session → Sent S A × Session
  go_on next (r, t) = elim r.outcome [ err e ↦ (r, t) | ok _ ↦ sent_after r.sent (next r.state t) ]

  -- The loop over the queries of a request, which ends at the first error.
  unfoldable pub send_queries :
      (S → ObjectQuery → Session → Sent S A × Session)
      → S
      → List ObjectQuery
      → Session
      → Sent S A × Session
  send_queries serve s [] t = (record { sent = []; state = s; outcome = ok tt }, t)
  send_queries serve s (query ∷ queries) t =
      go_on (λ s' t'. send_queries serve s' queries t') (serve s query t)

  -- `return status.Errorf(codes.Internal, …)` for what ends a stream.
  abbrev pub as_internal : Sent S A × Session → Sent S A × Session
  as_internal (r, t) = (record r { outcome = on_error (as_status internal) r.outcome }, t)

  -- A validated query whose rows were selected, or the error instead.
  abbrev pub with_rows :
      S
      → Result (Unit {0})
      → Tx (List DbObject)
      → (List DbObject → Session → Sent S A × Session)
      → Session
      → Sent S A × Session
  with_rows s (err e) select serve t = (failed_with s e, t)
  with_rows s (ok _) select serve t =
      let (rows, t') = select t in
      elim rows [
        | err e ↦ (failed_with s (as_status internal e), t')
        | ok objects ↦ as_internal (serve objects t')
      ]

  -- A transaction that is given up at the end, and the responses after its first steps.
  abbrev pub given_up : Sent S A × Session → Sent S A × Session
  given_up (r, t) = (r, record t { view = t.committed })

  abbrev pub finish :
      {B : Type 0}
      → S
      → (B → Session → Sent S A × Session)
      → Result B × Session
      → Sent S A × Session
  finish s serve (err e, t) = given_up (failed_with s e, t)
  finish s serve (ok b, t) = given_up (serve b t)

-- The version that goes with each response.
abbrev pub stamped : {S A : Type 0} → ℤ → Sent S A × Session → Sent S (ℤ × A) × Session
stamped version (r, t) =
    (record { sent = map (λ a. (version, a)) r.sent; state = r.state; outcome = r.outcome }, t)

-- InspectResponse
pub record Inspection : Type 0 where
  pub latest_version : ℤ
  pub live_objects_count : ℤ
  pub total_objects_count : ℤ

module _ {S : Type 0} (codec : Codec) (cache : MemoryCache S) (auth : Auth) where
  -- GetTars with the loop of GetCompress.
  unfoldable pub serve_tars :
      ℤ → List ℤ → VersionRange → S → ObjectQuery → Session → Sent S Tar × Session
  unfolding validate_object_query execute_query tars_of
  serve_tars project cache_versions vrange s query =
      with_rows s (validate_object_query query)
        (execute_query (record {
          project = project;
          vrange = vrange;
          object_query = query;
          cache_versions = cache_versions;
        }))
        (tars_of codec cache s)

  -- GetCompress
  unfoldable pub get_compress :
      S → ℤ → Option ℤ → Option ℤ → List ObjectQuery → List ℤ → Session → Sent S (ℤ × Tar) × Session
  unfolding open_range serve_tars send_queries
  get_compress s project from to queries cache_versions t =
      finish s
        (λ vrange u.
          stamped vrange.to (send_queries (serve_tars project cache_versions vrange) s queries u))
        (open_range auth project from to t)

  -- The query of GetObjects: the path of a pack in place of a path inside it.
  unfoldable pub packed_query : List Bytes → ObjectQuery → ObjectQuery
  packed_query matchers query = elim (is_path_packed codec matchers query.path) [
    | none ↦ query
    | some parent ↦ record query { path = parent }
  ]

  -- GetObjects with the loop of Get.
  unfoldable pub serve_objects :
      ℕ → ℤ → VersionRange → List Bytes → S → ObjectQuery → Session → Sent S Object × Session
  unfolding validate_object_query execute_query objects_of packed_query
  serve_objects fuel project vrange matchers s query =
      with_rows s (validate_object_query query)
        (execute_query (record {
          project = project;
          vrange = vrange;
          object_query = packed_query matchers query;
          cache_versions = [];
        }))
        (objects_of codec cache query.path query fuel s)

  unfoldable pub open_packs : ℤ → Option ℤ → Option ℤ → Tx (VersionRange × List Bytes)
  unfolding open_range
  open_packs project from to = do
    vrange ← open_range auth project from to
    matchers ← in_status internal (new_pack_manager codec project)
    pure (vrange, matchers)

  -- Get, with fuel for the stream of each query
  unfoldable pub get :
      ℕ → S → ℤ → Option ℤ → Option ℤ → List ObjectQuery → Session → Sent S (ℤ × Object) × Session
  unfolding open_packs serve_objects send_queries
  get fuel s project from to queries t =
      finish s
        (λ (vrange, matchers) u.
          stamped vrange.to (send_queries (serve_objects fuel project vrange matchers) s queries u))
        (open_packs project from to t)

  -- The query of Inspect.
  abbrev pub whole_query : ObjectQuery
  whole_query = record { path = []; is_prefix = true; ignores = [] }

  unfoldable pub open_inspection : ℤ → Tx (VersionRange × List Bytes)
  open_inspection project = do
    lift (require_admin_auth auth)
    in_status unavailable connect
    vrange ← catch as_missing (new_version_range project none none)
    matchers ← in_status internal (new_pack_manager codec project)
    pure (vrange, matchers)

  -- Inspect after its objects were counted.
  abbrev pub inspected :
      ℤ → VersionRange → Sent S Object × Session → (Result Inspection × S) × Session
  inspected project vrange (r, t) = elim r.outcome [
    | err e ↦ ((err e, r.state), t)
    | ok _ ↦
        let (total, t') = in_status internal (total_objects_count project) t in
        let inspection : Result Inspection = elim total [
          | err e ↦ err e
          | ok count ↦ ok (record {
            latest_version = vrange.to;
            live_objects_count = pos (length r.sent);
            total_objects_count = count;
          })
        ] in
        ((inspection, r.state), t')
  ]

  abbrev pub inspect_from :
      ℕ → S → ℤ → Result (VersionRange × List Bytes) × Session → (Result Inspection × S) × Session
  inspect_from fuel s project (err e, t) = ((err e, s), t)
  inspect_from fuel s project (ok (vrange, matchers), t) =
      inspected project vrange (serve_objects fuel project vrange matchers s whole_query t)

  abbrev pub given_up_after : (Result Inspection × S) × Session → (Result Inspection × S) × Session
  given_up_after (r, t) = (r, record t { view = t.committed })

  -- Inspect, with fuel for its stream; its query passes the validation that it does not call
  unfoldable pub inspect : ℕ → S → ℤ → Session → (Result Inspection × S) × Session
  unfolding open_inspection serve_objects
  inspect fuel s project t =
      given_up_after (inspect_from fuel s project (open_inspection project t))

-- GetCache: the responses that it sends
unfoldable pub get_cache : Auth → Tx (List CacheTar)
get_cache auth = close do
  lift (require_shared_reader_auth auth)
  in_status unavailable connect
  in_status internal get_cache_tars
