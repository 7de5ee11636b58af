-- ===== src/Api/Fs/Read/Unary.antt =====
-- pkg/api/fs.go: GetUnary, which answers with all objects at once.
use dateilager.Prelude.{
  ℕ, ◌≡◌, refl, ap, sym, ◌∙◌, Option, List, [], ◌∷◌, ◌++◌, append-nil, append_assoc, ℤ, pos, Bytes,
}
use dateilager.Result.{Result, ok, err, internal, unavailable}
use dateilager.Codec.{Codec}
use dateilager.Auth.{Auth, require_project_auth, check_project}
use dateilager.Db.Session.{Session, Tx, pure, lift, connect, catch, ◌>>=◌, ◌>>◌}
use dateilager.Db.Session
use dateilager.Db.Query.{ObjectQuery, VersionRange}
use dateilager.Db.Pack.{new_pack_manager}
use dateilager.Db.Update.{Object}
use dateilager.Db.Content.{MemoryCache}
use dateilager.Db.Stream.{new_version_range, execute_query}
use dateilager.Db.Stream.Tars.{Sent}
use dateilager.Db.Stream.Objects.{objects_of}
use dateilager.Api.Fs.{in_status}
use dateilager.Api.Fs.Read.{
  validate_object_query, as_missing, with_rows, packed_query, open_range, open_packs, go_on,
  sent_after, send_queries, serve_objects,
}

-- GetUnaryResponse
pub record Answer : Type 0 where
  pub version : ℤ
  pub objects : List Object

-- `var response pb.GetUnaryResponse`
abbrev pub empty_answer : Answer
empty_answer = record { version = pos 0; objects = [] }

-- The loop over the objects of a query: each sets the version and is appended.
unfoldable pub gather : ℤ → Answer → List Object → Answer
gather version a [] = a
gather version a (object ∷ objects) =
    gather version (record { version = version; objects = a.objects ++ object ∷ [] }) objects

module _ {S : Type 0} where
  -- The response after a query, or the error that ended its objects.
  abbrev pub gathered :
      ℤ
      → Answer
      → (Answer → S → Session → (Result Answer × S) × Session)
      → Sent S Object × Session
      → (Result Answer × S) × Session
  gathered version a next (r, t) = elim r.outcome [
    | err e ↦ ((err e, r.state), t)
    | ok _ ↦ next (gather version a r.sent) r.state t
  ]

  -- `defer close(ctx)`
  abbrev pub closed_after : (Result Answer × S) × Session → (Result Answer × S) × Session
  closed_after (r, t) = (r, record t { view = t.committed })

module _ {S : Type 0} (codec : Codec) (cache : MemoryCache S) (auth : Auth) where
  -- The checks, the version range and the packs.
  unfoldable pub open_unary : ℤ → Option ℤ → Option ℤ → Tx (VersionRange × List Bytes)
  open_unary project from to = do
    own ← lift (require_project_auth auth)
    lift (check_project own project)
    in_status unavailable connect
    vrange ← catch as_missing (new_version_range project from to)
    matchers ← in_status internal (new_pack_manager codec project)
    pure (vrange, matchers)

  -- The loop over the queries, with the response so far and fuel for the objects of a query
  unfoldable pub answer_queries :
      ℕ
      → ℤ
      → VersionRange
      → List Bytes
      → Answer
      → S
      → List ObjectQuery
      → Session
      → (Result Answer × S) × Session
  unfolding validate_object_query execute_query objects_of packed_query
  answer_queries fuel project vrange matchers a s [] t = ((ok a, s), t)
  answer_queries fuel project vrange matchers a s (query ∷ queries) t =
      gathered vrange.to a (λ a' s' u. answer_queries fuel project vrange matchers a' s' queries u)
        (with_rows s (validate_object_query query)
          (execute_query (record {
            project = project;
            vrange = vrange;
            object_query = packed_query codec cache auth matchers query;
            cache_versions = [];
          }))
          (objects_of codec cache query.path query fuel s) t)

  abbrev pub answer_from :
      ℕ
      → S
      → ℤ
      → List ObjectQuery
      → Result (VersionRange × List Bytes) × Session
      → (Result Answer × S) × Session
  answer_from fuel s project queries (err e, t) = ((err e, s), t)
  answer_from fuel s project queries (ok (vrange, matchers), t) =
      answer_queries fuel project vrange matchers empty_answer s queries t

  -- GetUnary
  unfoldable pub get_unary :
      ℕ → S → ℤ → Option ℤ → Option ℤ → List ObjectQuery → Session → (Result Answer × S) × Session
  unfolding open_unary answer_queries
  get_unary fuel s project from to queries t =
      closed_after (answer_from fuel s project queries (open_unary project from to t))

gather-append :
    (version : ℤ) (a : Answer) (xs ys : List Object)
    → gather version (gather version a xs) ys ≡ gather version a (xs ++ ys)
unfolding gather
gather-append version a [] ys = refl
gather-append version a (x ∷ xs) ys = gather-append version _ xs ys

pub gather-objects :
    (version : ℤ) (a : Answer) (xs : List Object) → (gather version a xs).objects ≡ a.objects ++ xs
unfolding gather
gather-objects version a [] = sym (append-nil a.objects)
gather-objects version a (x ∷ xs) = gather-objects version _ xs ∙ append_assoc a.objects (x ∷ []) xs

module _ {S : Type 0} where
  -- The answer that the objects of a stream make.
  abbrev pub as_answer : ℤ → Answer → Sent S Object × Session → (Result Answer × S) × Session
  as_answer version a (r, t) = gathered version a (λ a' s u. ((ok a', s), u)) (r, t)

  as_answer-after :
      (version : ℤ) (a : Answer) (xs : List Object) (r : Sent S Object) (t : Session)
      → as_answer version (gather version a xs) (r, t) ≡ as_answer version a (sent_after xs (r, t))
  as_answer-after version a xs r t =
      elim r.outcome
        as (λ o.
          as_answer version (gather version a xs) (record r { outcome = o }, t)
          ≡ as_answer version a (sent_after xs (record r { outcome = o }, t))) [
            | err e ↦ refl
            | ok _ ↦ ap (λ b. ((ok b, r.state), t)) (gather-append version a xs r.sent)
          ]

  gathered-go_on :
      (version : ℤ) (a : Answer) (next : Answer → S → Session → (Result Answer × S) × Session)
      (send_rest : S → Session → Sent S Object × Session) (r : Sent S Object) (t : Session)
      → ((b : Answer) (s : S) (u : Session) → next b s u ≡ as_answer version b (send_rest s u))
      → gathered version a next (r, t) ≡ as_answer version a (go_on send_rest (r, t))
  gathered-go_on version a next send_rest r t h =
      elim r.outcome
        as (λ o.
          gathered version a next (record r { outcome = o }, t)
          ≡ as_answer version a (go_on send_rest (record r { outcome = o }, t))) [
            | err e ↦ refl
            | ok _ ↦
                h (gather version a r.sent) r.state t
                ∙ (let (q, u) = send_rest r.state t in as_answer-after version a r.sent q u)
          ]

regroup :
    {A B C : Type 0} (m : Tx A) (f : A → Tx B) (g : B → Tx C) (h : A → Tx C)
    → ((a : A) (t : Session) → (f a >>= g) t ≡ h a t)
    → (t : Session) → ((m >>= f) >>= g) t ≡ (m >>= h) t
unfolding ◌>>=◌
regroup m f g h same t = by_result (m t).0 (m t).1
  where
    by_result :
        (r : Result _) (u : Session)
        → Session.continue (Session.continue r f u).0 g (Session.continue r f u).1
          ≡ Session.continue r h u
    by_result (ok a) u = same a u
    by_result (err e) u = refl

module _ {S : Type 0} (codec : Codec) (cache : MemoryCache S) (auth : Auth) where
  -- The loop of GetUnary collects what that of Get sends.
  pub answer_queries-send_queries :
      (fuel : ℕ) (project : ℤ) (vrange : VersionRange) (matchers : List Bytes) (a : Answer) (s : S)
      (queries : List ObjectQuery) (t : Session)
      → answer_queries codec cache auth fuel project vrange matchers a s queries t
        ≡ as_answer vrange.to a
            (send_queries (serve_objects codec cache auth fuel project vrange matchers) s queries t)
  unfolding answer_queries send_queries serve_objects gather
  answer_queries-send_queries fuel project vrange matchers a s [] t = refl
  answer_queries-send_queries fuel project vrange matchers a s (query ∷ queries) t =
      let (r, u) = serve_objects codec cache auth fuel project vrange matchers s query t in
      gathered-go_on vrange.to a
        (λ b s' u'. answer_queries codec cache auth fuel project vrange matchers b s' queries u')
        (λ s' u'.
          send_queries (serve_objects codec cache auth fuel project vrange matchers) s' queries u')
        r u (λ b s' u'. answer_queries-send_queries fuel project vrange matchers b s' queries u')

  -- The range, the checks before it and the packs after it.
  pub open_unary-open_packs :
      (project : ℤ) (from to : Option ℤ) (t : Session)
      → open_unary codec cache auth project from to t
        ≡ open_packs codec cache auth project from to t
  unfolding open_unary open_packs open_range
  open_unary-open_packs project from to t =
      let k : VersionRange → Tx (VersionRange × List Bytes) = λ vrange.
        in_status internal (new_pack_manager codec project) >>= λ matchers.
        pure (vrange, matchers) in
      sym (
        regroup (lift (require_project_auth auth)) _ k _
          (λ own u.
            regroup (lift (check_project own project)) _ k _
              (λ _ u'. regroup (in_status unavailable connect) _ k _ (λ _ u''. refl) u') u)
          t)
