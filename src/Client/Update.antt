-- ===== src/Client/Update.antt =====
-- Update of pkg/client/client.go: what comes before its goroutines, which Client.Upload models, and
-- after them.
--
-- The directory does not change while the goroutines read it. Rebuild is called with an empty cache
-- directory, which is the working directory.
pub mod Complete
use dateilager.Prelude.{
  ℕ, ◌%◌, ◌^◌, ◌≡◌, ◌≢◌, true, Option, none, some, List, [], ◌∷◌, length, ℤ, succ64, Bytes,
}
use dateilager.Result.{Error, Result, ok, err}
use dateilager.Files.System
use dateilager.Files.System.{Fs, System}
use dateilager.Files.Writer.{Reader}
use dateilager.Client.Disk.{FilePath, Disk}
use dateilager.Client.Dir.{read_version_file, write_version_file}
use dateilager.Client.Tracker.{RebuildResult}
use dateilager.Client.Rebuild.{Differ, Remote, Rebuilds, on_disk, diff_and_summarize}
use dateilager.Client.Upload.{Change, Outlet, Upload, begin, object_of, IsDone}
use dateilager.Client.Upload.Steps.{Trace}

-- Update up to its goroutines: the version of the directory and its changes.
unfoldable pub open_update : {Y : Type 0} → Differ Change Y → FilePath → Fs Disk (ℤ × List Change)
unfolding System.◌>>=◌ read_version_file diff_and_summarize
open_update differ dir =
    System.◌>>=◌ (on_disk (read_version_file dir))
      λ from. System.◌>>=◌ (diff_and_summarize differ dir) λ changes. System.pure (from, changes)

-- uint32(len(diff.Updates))
abbrev pub update_count : List Change → ℕ
update_count changes = length changes % 2 ^ 32

-- WriteVersionFile after the update that the server counted as the next one
abbrev pub after_record : ℤ × ℕ → Result (Unit {0}) × Disk → Result (ℤ × ℕ) × Disk
after_record r (ok u, d) = (ok r, d)
after_record r (err e, d) = (err e, d)

-- Rebuild after an update that others were faster than
abbrev pub after_rebuild : ℕ → Result RebuildResult × Disk → Result (ℤ × ℕ) × Disk
after_rebuild count (ok r, d) = (ok (r.version, count), d)
after_rebuild count (err e, d) = (err e, d)

module _ {H Y : Type 0} (os : System Disk H) (path_of : FilePath → Bytes)
    (open_tar : Bytes → Reader) (differ : Differ Change Y) (remote : Remote) (outlet : Outlet)
    (workers : ℕ) (dir working_dir : FilePath) where
  -- The goroutines, from the changes of the directory to where all have returned.
  pub record Runs (changes : List Change) (d : Disk) (h : Upload) : Type 0 where
    pub moves : ℕ
    pub trace :
        Trace (object_of os (path_of dir) d) outlet (length changes) (begin changes workers) moves h
    pub done : IsDone h

  -- The call of Rebuild at the end.
  abbrev pub Refreshes : Disk → Result RebuildResult × Disk → Type 0
  Refreshes =
      Rebuilds os path_of open_tar differ remote workers [] none dir [] working_dir none true

  -- What Update may return and leave: the new version and the number of changes.
  pub data Updates (d : Disk) (out : Result (ℤ × ℕ) × Disk) : Type 0 where
    refused :
        (e : Error) (d' : Disk)
        → open_update differ dir d ≡ (err e, d')
        → out ≡ (err e, d')
        → Updates d out
    unchanged :
        (from : ℤ) (d' : Disk)
        → open_update differ dir d ≡ (ok (from, []), d')
        → out ≡ (ok (from, 0), d')
        → Updates d out
    failed :
        (from : ℤ) (change : Change) (rest : List Change) (d' : Disk) (h : Upload) (e : Error)
        → open_update differ dir d ≡ (ok (from, change ∷ rest), d')
        → Runs (change ∷ rest) d' h
        → h.error ≡ some e
        → out ≡ (err e, d')
        → Updates d out
    recorded :
        (from : ℤ) (change : Change) (rest : List Change) (d' : Disk) (h : Upload)
        → open_update differ dir d ≡ (ok (from, change ∷ rest), d')
        → Runs (change ∷ rest) d' h
        → h.error ≡ none
        → h.to_version ≡ succ64 from
        → out
          ≡ after_record
              (h.to_version, update_count (change ∷ rest))
              (write_version_file dir h.to_version d')
        → Updates d out
    rebuilt :
        (from : ℤ) (change : Change) (rest : List Change) (d' : Disk) (h : Upload)
        (result : Result RebuildResult × Disk)
        → open_update differ dir d ≡ (ok (from, change ∷ rest), d')
        → Runs (change ∷ rest) d' h
        → h.error ≡ none
        → h.to_version ≢ succ64 from
        → Refreshes d' result
        → out ≡ after_rebuild (update_count (change ∷ rest)) result
        → Updates d out
