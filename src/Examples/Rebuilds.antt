-- ===== src/Examples/Rebuilds.antt =====
-- The goroutines of pkg/client on a stream of one response, and the interceptors of the server on a
-- header.
use dateilager.Prelude.{
  ◌≡◌, ◌≤◌, ◌+◌, ◌*◌, ◌↔◌, ◌⊎◌, refl, true, false, Option, none, some, [], ◌∷◌, ◌++◌, All, pos,
  Bytes, codes, length, arith,
}
use dateilager.Result.{ok, err, no_such_file}
use dateilager.Auth.{project, validate}
use dateilager.Files.System.{Fs, System, removed}
use dateilager.Files.Writer.{Reader}
use dateilager.Client.Disk.{Disk, FilePath}
use dateilager.Client.Dir.{write_version_file}
use dateilager.Client.Tracker.{new_result_tracker, RebuildResult}
use dateilager.Client.Group.{Group, start, IsFinished}
use dateilager.Client.Group.Kept.{SameItems}
use dateilager.Client.Group.Ends.{goroutines_end, CanStep}
use dateilager.Client.Group.Steps.{Run, here, next, check, send, take, write, leave}
use dateilager.Client.Rebuild.{
  Response, Rebuilt, Differ, Stream, Remote, rebuild_job, open_rebuild, close_rebuild, Rebuilds,
  going,
}
use dateilager.Client.Rebuild.Versions.{HasVersion, rebuild_versions}
use dateilager.Client.Rebuild.Unmanned.{unwritten, rebuild_unmanned}
use dateilager.Client.Cache.{
  CacheResponse, Fetched, cache_job, no_cache_yet, open_cache, close_cache, GetsCache,
}
use dateilager.Client.Cache.Versions.{IsOf, get_cache_versions}
use dateilager.Server.{bearer, validate_token_stream}
use dateilager.Server.Admission.{validate_token_stream_lem}
use dateilager.Examples.Clients.{home_disk}

abbrev pub works : {A : Type 0} → A → Fs Disk A
works a d = (ok a, d)

-- A file system in which nothing is there but what pkg/client reads itself.
abbrev pub quiet_system : System Disk Bytes
quiet_system = record {
  join = λ a b. a ++ b'/' ∷ b;
  dir = λ path. path;
  lstat = λ path d. err no_such_file;
  stat_path = λ path d. err no_such_file;
  is_writable = λ path d. true;
  read_file = λ path d. err no_such_file;
  read_link = λ path d. err no_such_file;
  remove = λ path d. (removed, d);
  remove_all = λ path. works tt;
  mkdir = λ path mode. works tt;
  mkdir_all = λ path mode. works tt;
  mkdir_temp = λ path name. works name;
  symlink = λ old path. works tt;
  link = λ old path. works tt;
  rename = λ old path. works tt;
  open_file = λ path mode. works path;
  create_new = λ path. works tt;
  chmod_path = λ path mode. works tt;
  fallocate = λ file size. works tt;
  write = λ file bytes. works tt;
  stat = λ file d. ok 420;
  chmod = λ file mode. works tt;
  close = λ file d. d;
  walk = λ root d. ([], ok tt);
}

abbrev pub no_path : FilePath → Bytes
no_path path = codes "out"

abbrev pub no_objects : Bytes → Reader
no_objects bytes = record { headers = []; end = ok tt }

abbrev differ : Differ (Unit {0}) (Unit {0})
differ = record {
  read_summary = λ dir d. ok tt;
  write_summary = λ dir summary. works tt;
  diff = λ dir summary d. ok ([], tt);
}

abbrev first : Response
first = record { version = pos 4; bytes = codes "tar"; pack_path = none }

abbrev pub home : FilePath
home = codes "home" ∷ []

abbrev pub fresh : Rebuilt
fresh = record { tracker = new_result_tracker; disk = home_disk }

abbrev written : Rebuilt
written = record {
  tracker = record { version = pos 4; count = 0; is_match = true };
  disk = home_disk;
}

abbrev finished : Group Response Rebuilt
finished = record (start first [] (ok tt) 0 written) {
  receiver = dateilager.Client.Group.stopped;
  written = first ∷ [];
}

one_trace :
    Run
      (rebuild_job quiet_system no_path no_objects none home home)
      (start first [] (ok tt) 1 fresh)
      5
      finished
unfolding dateilager.Client.Group.check_response dateilager.Client.Rebuild.accept_response
    dateilager.Client.Rebuild.write_response dateilager.Client.Tracker.add
one_trace =
    next
      (next
        (next (next (next here (check first refl refl)) (send first refl (omega arith) refl))
          (take first [] 0 refl refl refl))
        (write [] first [] refl refl))
      (leave 0 refl refl refl refl)

finished-IsFinished : IsFinished finished
finished-IsFinished = record { receiver = refl; idle = refl; busy = refl }

goroutines_end_example :
    (5 ≤ 5 * length {A = Response} [] + 4 + 1)
    × (IsFinished finished
        ⊎ CanStep (rebuild_job quiet_system no_path no_objects none home home) finished)
goroutines_end_example =
    goroutines_end (rebuild_job quiet_system no_path no_objects none home home) first [] (ok tt) 1
      fresh (omega arith) (omega arith) one_trace

abbrev found : RebuildResult
found = dateilager.Client.Tracker.result written.tracker

closed :
    close_rebuild differ home false none written
    ≡ (ok found, (write_version_file home (pos 4) home_disk).1)
unfolding close_rebuild dateilager.Client.Tracker.result dateilager.Client.Disk.mkdir_all
    dateilager.Client.Disk.write_with
closed = refl

rebuild_versions_example :
    All (HasVersion found.version) (first ∷ [])
    × SameItems (first ∷ []) (first ∷ [])
    × ((write_version_file home found.version home_disk).0 ≡ ok tt)
unfolding dateilager.Client.Tracker.result
rebuild_versions_example =
    rebuild_versions quiet_system no_path no_objects home home none first (λ e. ground (arith, e))
      differ false [] (ok tt) 1 home_disk (write_version_file home (pos 4) home_disk).1 found
      (omega arith) one_trace finished-IsFinished closed

abbrev pub one_response : Remote
one_response from to query versions = ok (record { responses = first ∷ []; end = ok tt })

abbrev pub opened_disk : Disk
opened_disk = (dateilager.Client.Dir.ensure_metadata_dir home home_disk).1

opens :
    open_rebuild one_response [] none home [] home home_disk
    ≡ (ok (going first [] (ok tt)), opened_disk)
unfolding open_rebuild dateilager.Client.Dir.ensure_metadata_dir
    dateilager.Client.Dir.read_version_file dateilager.Client.Disk.read_file
    dateilager.Decimal.parse_int dateilager.Client.Disk.mkdir_all
opens = refl

rebuild_unmanned_example :
    Rebuilds quiet_system no_path no_objects differ one_response 0 [] none home [] home none false
      home_disk
      (close_rebuild differ home false none (unwritten (pos 4) opened_disk))
rebuild_unmanned_example =
    rebuild_unmanned quiet_system no_path no_objects differ one_response [] none home [] home none
      false first [] home_disk opened_disk opens (refl, tt) (omega arith)

abbrev pack : CacheResponse
pack = record { version = pos 2; hash = codes "h"; bytes = codes "tar" }

abbrev empty_cache : Fetched
empty_cache = record { count = 0; disk = home_disk }

abbrev cached : Group CacheResponse Fetched
cached = record (start pack [] (ok tt) 0 empty_cache) {
  receiver = dateilager.Client.Group.stopped;
  written = pack ∷ [];
}

cache_trace :
    Run
      (cache_job quiet_system no_path no_objects home (pos 2))
      (start pack [] (ok tt) 1 empty_cache)
      5
      cached
unfolding dateilager.Client.Group.check_response dateilager.Client.Cache.accept_cached
    dateilager.Client.Cache.write_pack_response
cache_trace =
    next
      (next
        (next (next (next here (check pack refl refl)) (send pack refl (omega arith) refl))
          (take pack [] 0 refl refl refl))
        (write [] pack [] refl refl))
      (leave 0 refl refl refl refl)

get_cache_versions_example : All (IsOf (pos 2)) (pack ∷ []) × SameItems (pack ∷ []) (pack ∷ [])
get_cache_versions_example =
    get_cache_versions quiet_system no_path no_objects home pack [] (ok tt) 1 empty_cache
      (omega arith) cache_trace (record { receiver = refl; idle = refl; busy = refl }) refl

abbrev verify : Bytes → Option Bytes
verify token = some (codes "7")

validate_token_stream_lem_example :
    (validate_token_stream verify (some ((bearer ++ codes "t") ∷ [])) ≡ ok (project (pos 7))) ↔ (
      (token : Bytes) × ((bearer ++ codes "t") ∷ [] ≡ (bearer ++ token) ∷ [])
      × (validate verify token ≡ some (project (pos 7))))
validate_token_stream_lem_example =
    validate_token_stream_lem verify ((bearer ++ codes "t") ∷ []) (project (pos 7))
