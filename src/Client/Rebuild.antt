-- ===== src/Client/Rebuild.antt =====
-- Rebuild and DiffAndSummarize of pkg/client: a directory is taken to a version by the archives
-- that GetCompress sends.
--
-- The server's answer, the reader of archives and the package fsdiff are arguments, and so is how
-- the text of a path is joined. Next to an error the code returns an empty result, which is left out.
pub mod Versions
pub mod Unmanned
pub mod Served
use dateilager.Prelude.{
  ℕ, ◌≡◌, Bool, true, false, Option, none, some, List, [], ◌∷◌, ◌++◌, ℤ, eqb_ℤ, Bytes,
  if◌then◌else◌,
}
use dateilager.Result.{Error, Result, ok, err, cancelled, ◌>>=◌}
use dateilager.Db.Query.{ObjectQuery}
use dateilager.Files.System
use dateilager.Files.System.{Fs, System}
use dateilager.Files.Matcher.{FileMatcher}
use dateilager.Files.Writer.{Reader}
use dateilager.Files.Tar.{Written, write_tar}
use dateilager.Client.Disk.{FilePath, Disk}
use dateilager.Client.Dir.{
  ensure_metadata_dir, cache_objects_dir, read_cache_version_file, read_version_file,
  write_version_file,
}
use dateilager.Client.Tracker.{
  Tracker, RebuildResult, empty_result, new_result_tracker, check_version, add, result,
}
use dateilager.Client.Group.{Job, Group, start, IsFinished}
use dateilager.Client.Group.Steps.{Run}

-- GetCompressResponse
pub record Response : Type 0 where
  pub version : ℤ
  pub bytes : Bytes
  pub pack_path : Option Bytes

-- A stream of responses, as a client receives it.
pub record Stream (R : Type 0) : Type 0 where
  pub responses : List R
  pub end : Result (Unit {0})

-- Package fsdiff: a summary of a directory, and the changes since an older one. A is a change.
pub record Differ (A Y : Type 0) : Type 0 where
  -- ReadSummary, where a missing file is an empty summary, and WriteSummary
  pub read_summary : FilePath → Disk → Result Y
  pub write_summary : FilePath → Y → Fs Disk (Unit {0})
  pub diff : FilePath → Y → Disk → Result (List A × Y)

-- What the goroutines of a rebuild share.
pub record Rebuilt : Type 0 where
  pub tracker : Tracker
  pub disk : Disk

abbrev pub on_disk : {A : Type 0} → (Disk → Result A) → Fs Disk A
on_disk f d = (f d, d)

module _ {A Y : Type 0} (differ : Differ A Y) where
  -- DiffAndSummarize
  unfoldable pub diff_and_summarize : FilePath → Fs Disk (List A)
  unfolding System.◌>>=◌ ensure_metadata_dir
  diff_and_summarize dir = System.◌>>◌ (ensure_metadata_dir dir) (
      System.◌>>=◌ (on_disk (differ.read_summary dir)) λ summary.
        System.◌>>=◌ (on_disk (differ.diff dir summary)) λ (changes, summary').
          System.◌>>◌ (differ.write_summary dir summary') (System.pure changes))

module _ {H : Type 0} (os : System Disk H) (path_of : FilePath → Bytes) (open_tar : Bytes → Reader)
    (matcher : Option FileMatcher) (dir cache_dir : FilePath) where
  abbrev pub after_tar : Result Written × Disk → Rebuilt → Result (Unit {0}) × Rebuilt
  after_tar (ok w, d) s = (ok tt, record { tracker = add w.count w.is_match s.tracker; disk = d })
  after_tar (err e, d) s = (err e, record s { disk = d })

  -- What a worker does with a response.
  unfoldable pub write_response : Response → Rebuilt → Result (Unit {0}) × Rebuilt
  unfolding write_tar
  write_response r s =
      after_tar
        (write_tar os matcher (path_of (cache_objects_dir cache_dir)) (path_of dir)
          (open_tar r.bytes) r.pack_path s.disk)
        s

  unfoldable pub accept_response : Response → Rebuilt → Result (Unit {0}) × Rebuilt
  unfolding check_version
  accept_response r s =
      let (checked, t) = check_version r.version s.tracker in (checked, record s { tracker = t })

  -- The goroutines of Rebuild.
  abbrev pub rebuild_job : Job Response Rebuilt
  rebuild_job = record {
    capacity = 32;
    accept = accept_response;
    write = write_response;
    on_lost = λ e. e;
    cancelled = cancelled;
  }

-- What comes before the goroutines: a result, or a stream with a first response.
pub data Opening (R A : Type 0) : Type 0 where
  done : A → Opening R A
  going : R → List R → Result (Unit {0}) → Opening R A

-- The first call of Recv.
abbrev pub first_response : {R A : Type 0} → A → Result (Stream R) → Result (Opening R A)
first_response nothing (err e) = err e
first_response nothing (ok s) = elim s.responses [
  | r ∷ rs ↦ ok (going r rs s.end)
  | [] ↦ elim s.end [ ok u ↦ ok (done nothing) | err e ↦ err e ]
]

-- toVersion != nil && fromVersion == *toVersion
abbrev pub is_at : ℤ → Option ℤ → Bool
is_at from none = false
is_at from (some to) = eqb_ℤ from to

-- GetCompress, with the arguments of its request
abbrev pub Remote : Type 0
Remote = ℤ → Option ℤ → ObjectQuery → List ℤ → Result (Stream Response)

-- Rebuild up to its goroutines.
unfoldable pub open_rebuild :
    Remote
    → Bytes
    → Option ℤ
    → FilePath
    → List Bytes
    → FilePath
    → Fs Disk (Opening Response RebuildResult)
unfolding System.◌>>=◌ read_version_file read_cache_version_file ensure_metadata_dir
open_rebuild remote prefix to dir ignores cache_dir =
    System.◌>>=◌ (on_disk (read_version_file dir)) λ from.
      if is_at from to
      then System.pure (done (empty_result from))
      else System.◌>>=◌
          (on_disk (λ d. first_response (empty_result from) (
            remote from to (record { path = prefix; is_prefix = true; ignores = ignores })
              (read_cache_version_file cache_dir d))))
          λ opening. elim opening [
            | done r ↦ System.pure (done r)
            | going r rs end ↦ System.◌>>◌ (ensure_metadata_dir dir) (System.pure (going r rs end))
          ]

module _ {A Y : Type 0} (differ : Differ A Y) (dir : FilePath) (summarize : Bool) where
  -- Rebuild after its goroutines.
  abbrev pub with_summary : RebuildResult → Fs Disk RebuildResult
  with_summary r =
      if summarize
      then System.◌>>=◌ (diff_and_summarize differ dir) (λ _. System.pure r)
      else System.pure r

  abbrev pub record_result : RebuildResult → Fs Disk RebuildResult
  record_result r = System.◌>>◌ (write_version_file dir r.version) (with_summary r)

  unfoldable pub close_rebuild : Option Error → Rebuilt → Result RebuildResult × Disk
  unfolding System.◌>>=◌ write_version_file diff_and_summarize result
  close_rebuild (some e) s = (err e, s.disk)
  close_rebuild none s = record_result (result s.tracker) s.disk

module _ {H A Y : Type 0} (os : System Disk H) (path_of : FilePath → Bytes)
    (open_tar : Bytes → Reader) (differ : Differ A Y) (remote : Remote) (workers : ℕ)
    (prefix : Bytes) (to : Option ℤ) (dir : FilePath) (ignores : List Bytes) (cache_dir : FilePath)
    (matcher : Option FileMatcher) (summarize : Bool) where
  -- What Rebuild may return and leave, since its goroutines may run in any order.
  pub data Rebuilds (d : Disk) (out : Result RebuildResult × Disk) : Type 0 where
    refused :
        (e : Error) (d' : Disk)
        → open_rebuild remote prefix to dir ignores cache_dir d ≡ (err e, d')
        → out ≡ (err e, d')
        → Rebuilds d out
    unchanged :
        (r : RebuildResult) (d' : Disk)
        → open_rebuild remote prefix to dir ignores cache_dir d ≡ (ok (done r), d')
        → out ≡ (ok r, d')
        → Rebuilds d out
    ran :
        (first : Response) (rest : List Response) (end : Result (Unit {0})) (d' : Disk) (n : ℕ)
        (h : Group Response Rebuilt)
        → open_rebuild remote prefix to dir ignores cache_dir d ≡ (ok (going first rest end), d')
        → Run
            (rebuild_job os path_of open_tar matcher dir cache_dir)
            (start first rest end workers (record { tracker = new_result_tracker; disk = d' }))
            n
            h
        → IsFinished h
        → out ≡ close_rebuild differ dir summarize h.error h.shared
        → Rebuilds d out
