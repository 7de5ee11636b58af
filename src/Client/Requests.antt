-- ===== src/Client/Requests.antt =====
-- Calls of pkg/client/client.go that send one request, and what they make of the answer. The remote
-- procedures are arguments; a call that hands on its request and the answer as they are is left out.
use dateilager.Prelude.{◌≡◌, refl, ap, sym, ◌∙◌, true, Option, List, [], ◌∷◌, map, ℤ, Bytes, ℕ}
use dateilager.Result.{Result, ok, err, ◌>>=◌}
use dateilager.Codec.{Codec}
use dateilager.Auth.{Auth}
use dateilager.Db.Session.{Session, Tx}
use dateilager.Db.Query.{ObjectQuery, VersionRange}
use dateilager.Db.Update.{Object}
use dateilager.Db.Content.{MemoryCache}
use dateilager.Db.Stream.Tars.{Sent}
use dateilager.Api.Fs.Read.{get, stamped, send_queries, serve_objects, open_packs, finish}
use dateilager.Api.Fs.Read.Unary.{
  get_unary, closed_after, as_answer, answer_from, empty_answer, gather-objects,
  answer_queries-send_queries, open_unary-open_packs,
}
use dateilager.Client.Rebuild.{Stream}
use dateilager.Client.State.{pack_patterns_of}

-- NewProject
unfoldable pub request_project :
    (ℤ → Option ℤ → List Bytes → Tx (Unit {0})) → ℤ → Option ℤ → Option Bytes → Tx (Unit {0})
unfolding pack_patterns_of
request_project remote id template pack_patterns =
    remote id template (pack_patterns_of pack_patterns)

-- The loop over Recv: an error of the stream loses the objects that came before it.
unfoldable pub receive_all : {R : Type 0} → Stream R → Result (List R)
receive_all stream = stream.end >>= λ _. ok stream.responses

-- The query of Get and Rebuild.
abbrev pub prefix_query : Bytes → List Bytes → ObjectQuery
prefix_query prefix ignores = record { path = prefix; is_prefix = true; ignores = ignores }

-- Get
unfoldable pub get_objects :
    (ℤ → Option ℤ → Option ℤ → List ObjectQuery → Result (Stream Object))
    → ℤ
    → Bytes
    → List Bytes
    → Option ℤ
    → Option ℤ
    → Result (List Object)
unfolding receive_all
get_objects remote project prefix ignores from to =
    remote project from to (prefix_query prefix ignores ∷ []) >>= receive_all

unstamped :
    (version : ℤ) (xs : List Object)
    → map (λ (a : ℤ × Object). a.1) (map (λ o. (version, o)) xs) ≡ xs
unstamped version [] = refl
unstamped version (x ∷ xs) = ap (λ rest. x ∷ rest) (unstamped version xs)

module _ {S : Type 0} where
  -- What a client receives of the responses that Get sent.
  abbrev pub stream_of : Sent S (ℤ × Object) → Stream Object
  stream_of r = record { responses = map (λ a. a.1) r.sent; end = r.outcome }

  received :
      (codec : Codec) (cache : MemoryCache S) (auth : Auth) (version : ℤ) (r : Sent S Object)
      (t : Session)
      → receive_all (stream_of (stamped version (r, t)).0) ≡ (
          (closed_after (as_answer version empty_answer (r, t))).0.0 >>= λ answer.
          ok answer.objects)
  unfolding receive_all
  received codec cache auth version r t =
      elim r.outcome
        as (λ o. receive_all (stream_of (stamped version (record r { outcome = o }, t)).0) ≡ (
          (closed_after (as_answer version empty_answer (record r { outcome = o }, t))).0.0
          >>= λ answer. ok answer.objects)) [
            | err e ↦ refl
            | ok _ ↦
                ap ok (unstamped version r.sent ∙ sym (gather-objects version empty_answer r.sent))
          ]

  -- The loops of Get and GetUnary after the same first steps.
  agree :
      (codec : Codec) (cache : MemoryCache S) (auth : Auth) (fuel : ℕ) (s : S) (project : ℤ)
      (queries : List ObjectQuery) (x : Result (VersionRange × List Bytes) × Session)
      → receive_all (
          stream_of
            (finish s
              (λ (vrange, matchers) u. stamped vrange.to (
                send_queries
                  (serve_objects codec cache auth fuel project vrange matchers)
                  s
                  queries
                  u))
              x).0)
        ≡ ((closed_after (answer_from codec cache auth fuel s project queries x)).0.0 >>= λ answer.
            ok answer.objects)
  unfolding receive_all
  agree codec cache auth fuel s project queries (err e, t) = refl
  agree codec cache auth fuel s project queries (ok (vrange, matchers), t) =
      let (r, u) =
        send_queries (serve_objects codec cache auth fuel project vrange matchers) s queries t in
      received codec cache auth vrange.to r u
      ∙ ap (λ y. (closed_after y).0.0 >>= λ answer. ok answer.objects)
          (sym (
            answer_queries-send_queries codec cache auth fuel project vrange matchers empty_answer s
              queries t))

  -- The client's Get returns the objects that GetUnary answers with for the same query, or its error.
  pub get_objects-get_unary :
      (codec : Codec) (cache : MemoryCache S) (auth : Auth) (fuel : ℕ) (s : S) (project : ℤ)
      (prefix : Bytes) (ignores : List Bytes) (from to : Option ℤ) (t : Session)
      → get_objects
          (λ p f o queries. ok (stream_of (get codec cache auth fuel s p f o queries t).0))
          project
          prefix
          ignores
          from
          to
        ≡ ((get_unary codec cache auth fuel s project from to
              (prefix_query prefix ignores ∷ [])
              t).0.0
            >>= λ answer. ok answer.objects)
  unfolding get_objects get_unary get
  get_objects-get_unary codec cache auth fuel s project prefix ignores from to t =
      let queries = prefix_query prefix ignores ∷ [] in
      agree codec cache auth fuel s project queries (open_packs codec cache auth project from to t)
      ∙ ap
          (λ x.
            (closed_after (answer_from codec cache auth fuel s project queries x)).0.0 >>= λ answer.
            ok answer.objects)
          (sym (open_unary-open_packs codec cache auth project from to t))
