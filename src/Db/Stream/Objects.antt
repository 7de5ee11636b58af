-- ===== src/Db/Stream/Objects.antt =====
-- GetObjects of internal/db/query.go: the objects of a query, with those in packs.
use dateilager.Prelude.{ℕ, zero, suc, List, [], ◌∷◌, Bytes, if◌then◌else◌}
use dateilager.Result.{Result, ok, err, out_of_fuel, panic, cached_object}
use dateilager.Codec.{Codec}
use dateilager.Db.Session.{Session}
use dateilager.Db.Query.{DbObject, ObjectQuery}
use dateilager.Db.Update.{Object}
use dateilager.Db.Tar.{Next, object, skip, end_of_stream, failed}
use dateilager.Db.Content.{MemoryCache}
use dateilager.Db.Stream.{
  Cursor, Row, no_row, bad_row, row, next_row, load_chunk, unpack_objects, filter_object,
}
use dateilager.Db.Stream.Tars.{Sent, sent_first}

-- &pb.Object{…} of a row
unfoldable pub object_of_row : DbObject → Bytes → Object
object_of_row o content = record {
  path = o.path;
  mode = o.mode;
  size = o.size;
  deleted = o.deleted;
  content = content;
}

-- The first object of a pack, and packBuffer. The code reads it without a look at the length.
abbrev pub first_of : Bytes → ObjectQuery → Result (List Object) → Next × List Object
first_of path query (err e) = (failed e, [])
first_of path query (ok []) = (failed panic, [])
first_of path query (ok (o ∷ os)) = (filter_object path query o, os)

-- What the loop does with the result of a call.
abbrev pub after_next :
    {S : Type 0} → Next → S → Session → Sent S Object × Session → Sent S Object × Session
after_next (object o) s t rest = sent_first o rest
after_next skip s t rest = rest
after_next end_of_stream s t rest = (record { sent = []; state = s; outcome = ok tt }, t)
after_next (failed e) s t rest = (record { sent = []; state = s; outcome = err e }, t)

module _ {S : Type 0} (codec : Codec) (cache : MemoryCache S) (path : Bytes)
    (query : ObjectQuery) where
  unfoldable pub read_row : Row → Next × List Object
  unfolding unpack_objects filter_object object_of_row
  read_row no_row = (end_of_stream, [])
  read_row (bad_row e) = (failed e, [])
  read_row (row o content) =
      if o.cached
      then (failed cached_object, [])
      else if o.packed
      then first_of path query (unpack_objects codec content)
      else (filter_object path query (object_of_row o content), [])

  -- The stream of GetObjects, whose last argument but one is packBuffer.
  unfoldable pub next_object :
      List DbObject → Cursor S → List Object → Session → (Next × Cursor S × List Object) × Session
  unfolding next_row read_row
  next_object objects c (o ∷ buffer) t = ((filter_object path query o, c, buffer), t)
  next_object objects c [] t =
      let ((r, c'), t') = next_row codec cache objects c t in
      let (n, buffer) = read_row r in ((n, c', buffer), t')

  -- The loop of Get over the stream, on fuel.
  unfoldable pub send_objects :
      ℕ → List DbObject → Cursor S → List Object → Session → Sent S Object × Session
  unfolding next_object
  send_objects zero objects c buffer t =
      (record { sent = []; state = c.state; outcome = err out_of_fuel }, t)
  send_objects (suc fuel) objects c buffer t =
      let ((n, c', buffer'), t') = next_object objects c buffer t in
      let rest = send_objects fuel objects c' buffer' t' in after_next n c'.state t' rest

  abbrev pub start_objects :
      ℕ → List DbObject → (S × Result (List Bytes)) × Session → Sent S Object × Session
  start_objects fuel objects ((s, err e), t) = (record { sent = []; state = s; outcome = err e }, t)
  start_objects fuel objects ((s, ok chunk), t) =
      send_objects fuel objects (record { idx = 0; chunk_idx = 0; chunk = chunk; state = s }) [] t

  -- GetObjects, after its query, with the loop that reads its stream.
  unfoldable pub objects_of : ℕ → S → List DbObject → Session → Sent S Object × Session
  unfolding load_chunk send_objects
  objects_of fuel s objects t = start_objects fuel objects (load_chunk codec cache s objects 0 t)
