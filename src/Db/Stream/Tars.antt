-- ===== src/Db/Stream/Tars.antt =====
-- GetTars of internal/db/query.go: the objects of a query in archives of a bounded size, and the
-- packs as they are stored.
use dateilager.Prelude.{
  ℕ, zero, suc, ◌+◌, Bool, not, ◌&&◌, Option, none, some, List, [], ◌∷◌, Bytes, length, ltb,
  if◌then◌else◌,
}
use dateilager.Result.{Error, Result, ok, err, out_of_fuel}
use dateilager.Codec.{Codec}
use dateilager.Db.Session.{Session}
use dateilager.Db.Query.{DbObject}
use dateilager.Db.Tar.{TarWriter, new_tar_writer, write_object, bytes_and_reset}
use dateilager.Db.Content.{MemoryCache}
use dateilager.Db.Stream.{
  Cursor, Row, no_row, bad_row, row, next_row, load_chunk, to_tar_object, target_tar_size,
}

-- What a call of the stream sends: an archive, with a path if it is a pack.
pub record Tar : Type 0 where
  pub bytes : Bytes
  pub pack_path : Option Bytes

pub data NextTar : Type 0 where
  tar : Tar → NextTar
  skip_tar end_of_tars : NextTar
  failed_tar : Error → NextTar

abbrev pub is_pack : DbObject → Bool
is_pack o = o.packed && not o.cached

-- How a stream ends: what it sent, the cache, and an error if one ended it.
pub record Sent (S A : Type 0) : Type 0 where
  pub sent : List A
  pub state : S
  pub outcome : Result (Unit {0})

abbrev pub sent_first : {S A : Type 0} → A → Sent S A × Session → Sent S A × Session
sent_first a (r, t) = (record r { sent = a ∷ r.sent }, t)

module _ (codec : Codec) where
  -- The end of the stream's body, which writes what is left.
  abbrev pub flush : TarWriter → NextTar × TarWriter
  flush w =
      if ltb 0 w.size
      then (
        tar (record { bytes = (bytes_and_reset codec w).0; pack_path = none }),
        (bytes_and_reset codec w).1,
      )
      else (end_of_tars, w)

  -- WriteObject, and the archive once it is large enough.
  abbrev pub write_or_skip : TarWriter → NextTar × TarWriter
  write_or_skip w =
      if ltb target_tar_size w.size
      then (
        tar (record { bytes = (bytes_and_reset codec w).0; pack_path = none }),
        (bytes_and_reset codec w).1,
      )
      else (skip_tar, w)

  unfoldable pub write_row : Row → TarWriter → NextTar × TarWriter
  unfolding write_object bytes_and_reset to_tar_object
  write_row no_row w = flush w
  write_row (bad_row e) w = (failed_tar e, w)
  write_row (row o content) w =
      if is_pack o
      then (tar (record { bytes = content; pack_path = some o.path }), w)
      else elim (write_object codec (to_tar_object o content) w) [
        | ok w' ↦ write_or_skip w'
        | err e ↦ (failed_tar e, w)
      ]

-- What the loop does with the result of a call.
abbrev pub after_call :
    {S : Type 0} → NextTar → S → Session → Sent S Tar × Session → Sent S Tar × Session
after_call (tar a) s t rest = sent_first a rest
after_call skip_tar s t rest = rest
after_call end_of_tars s t rest = (record { sent = []; state = s; outcome = ok tt }, t)
after_call (failed_tar e) s t rest = (record { sent = []; state = s; outcome = err e }, t)

module _ {S : Type 0} (codec : Codec) (cache : MemoryCache S) where
  -- The stream of GetTars.
  unfoldable pub next_tar :
      List DbObject → Cursor S → TarWriter → Session → (NextTar × Cursor S × TarWriter) × Session
  unfolding next_row write_row
  next_tar objects c w t =
      let ((r, c'), t') = next_row codec cache objects c t in
      let (n, w') = write_row codec r w in ((n, c', w'), t')

  -- The loop of GetCompress over the stream, on fuel.
  unfoldable pub send_tars :
      ℕ → List DbObject → Cursor S → TarWriter → Session → Sent S Tar × Session
  unfolding next_tar
  send_tars zero objects c w t =
      (record { sent = []; state = c.state; outcome = err out_of_fuel }, t)
  send_tars (suc fuel) objects c w t =
      let ((n, c', w'), t') = next_tar objects c w t in
      let rest = send_tars fuel objects c' w' t' in after_call n c'.state t' rest

  abbrev pub start_tars : List DbObject → (S × Result (List Bytes)) × Session → Sent S Tar × Session
  start_tars objects ((s, err e), t) = (record { sent = []; state = s; outcome = err e }, t)
  start_tars objects ((s, ok chunk), t) =
      send_tars (length objects + 2) objects
        (record { idx = 0; chunk_idx = 0; chunk = chunk; state = s }) new_tar_writer t

  -- GetTars, after its query, with the loop that reads its stream. Each turn takes a row, writes
  -- what is left, or ends.
  unfoldable pub tars_of : S → List DbObject → Session → Sent S Tar × Session
  unfolding load_chunk send_tars
  tars_of s objects t = start_tars objects (load_chunk codec cache s objects 0 t)
