-- ===== src/Client/Rebuild/Served.antt =====
-- A rebuild from what GetCompress sends.
use dateilager.Prelude.{◌≡◌, ap, ◌⊎◌, inl, inr, In, Option, List, ◌∷◌, ℤ, pos, Bytes}
use dateilager.Result.{Error, Result, Result-cases, err}
use dateilager.Codec.{Codec}
use dateilager.Auth.{Auth}
use dateilager.Db.Session.{Session}
use dateilager.Db.Stream.Tars.{Tar}
use dateilager.Files.System.{System}
use dateilager.Files.Matcher.{FileMatcher}
use dateilager.Files.Writer.{Reader}
use dateilager.Files.Tar.{Written, write_tar}
use dateilager.Client.Disk.{FilePath, Disk}
use dateilager.Client.Dir.{cache_objects_dir}
use dateilager.Client.Tracker.{Tracker}
use dateilager.Client.Group.{Group, IsFinished}
use dateilager.Client.Group.Kept.{SameItems}
use dateilager.Client.Group.Ends.{CanStep}
use dateilager.Client.Group.Replayed.{replay}
use dateilager.Client.Rebuild.{Response, Rebuilt, after_tar, write_response, rebuild_job}
use dateilager.Client.Rebuild.Versions.{HasVersion}

-- A message of GetCompress, as a client receives it.
abbrev pub response_of : ℤ × Tar → Response
response_of (version, tar) = record {
  version = version;
  bytes = tar.bytes;
  pack_path = tar.pack_path;
}

module _ {H : Type 0} (os : System Disk H) (path_of : FilePath → Bytes) (open_tar : Bytes → Reader)
    (dir cache_dir : FilePath) (matcher : Option FileMatcher) where
  -- WriteTar for a response, as a worker calls it.
  abbrev pub unpack : Response → Disk → Result Written × Disk
  unpack r d =
      write_tar os matcher (path_of (cache_objects_dir cache_dir)) (path_of dir) (open_tar r.bytes)
        r.pack_path d

  -- One of the responses for which WriteTar fails on some disk.
  abbrev pub Spoiled : List Response → Type 0
  Spoiled responses =
      (r : Response) × (d : Disk) × (e : Error) × In r responses × ((unpack r d).0 ≡ err e)

  abbrev IsFine : ℤ → List Response → Response → Type 0
  IsFine v responses r = HasVersion v r × In r responses

  abbrev Agrees : ℤ → Rebuilt → Type 0
  Agrees v s = (s.tracker.version ≡ pos 0) ⊎ (s.tracker.version ≡ v)

  -- The disk after a worker wrote a response, also in part.
  unpacked :
      (r : Response) (s : Rebuilt)
      → (write_response os path_of open_tar matcher dir cache_dir r s).1.disk ≡ (unpack r s.disk).1
  unfolding write_response
  unpacked r s = elim (Result-cases (unpack r s.disk).0) [
    | inl (w, o) ↦
        ap
          (λ x.
            (after_tar os path_of open_tar matcher dir cache_dir (x, (unpack r s.disk).1) s).1.disk)
          o
    | inr (f, o) ↦
        ap
          (λ x.
            (after_tar os path_of open_tar matcher dir cache_dir (x, (unpack r s.disk).1) s).1.disk)
          o
  ]

  -- What a run from responses of one version comes to, on a disk.
  abbrev pub ComesThrough : Response → List Response → Disk → Group Response Rebuilt → Type 0
  ComesThrough first rest d h =
      CanStep (rebuild_job os path_of open_tar matcher dir cache_dir) h
      ⊎ (IsFinished h
          × SameItems h.written (first ∷ rest)
          × (h.shared.tracker.version ≡ first.version)
          × (h.shared.disk ≡ replay (λ r d'. (unpack r d').1) d h.written))
