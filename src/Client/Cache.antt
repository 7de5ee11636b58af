-- ===== src/Client/Cache.antt =====
-- GetCache of pkg/client/client.go: the packs of the shared cache come into a directory of their own.
--
-- A panic of a goroutine ends the process, which is the error `panic` here: a failed Recv gives no
-- response, and its version is read before the error is looked at.
pub mod Versions
use dateilager.Prelude.{
  ℕ, ◌+◌, ◌%◌, ◌^◌, ◌≡◌, Bool, true, false, Option, none, some, List, [], ◌∷◌, ◌++◌, ℤ, negsuc,
  eqb_ℤ, Bytes, codes, if◌then◌else◌,
}
use dateilager.Result.{Error, Result, ok, err, cancelled, bad_response, panic}
use dateilager.Db.Schema.{Hash}
use dateilager.Db.Content.{hex}
use dateilager.Files.System
use dateilager.Files.System.{Fs, System}
use dateilager.Files.Writer.{Reader, file_exists}
use dateilager.Files.Tar.{Written, write_tar}
use dateilager.Client.Disk.{FilePath, Disk}
use dateilager.Client.Dir.{cache_objects_dir, cache_tmp_dir, add_cache_version}
use dateilager.Client.Group.{Job, Group, start, IsFinished}
use dateilager.Client.Group.Steps.{Run}
use dateilager.Client.Rebuild.{Stream, Opening, done, going, first_response}

-- GetCacheResponse
pub record CacheResponse : Type 0 where
  pub version : ℤ
  pub hash : Hash
  pub bytes : Bytes

-- What the goroutines share: writtenObjectCount and the disk.
pub record Fetched : Type 0 where
  pub count : ℕ
  pub disk : Disk

-- What GetCache returns if the server has no cache.
abbrev pub no_cache_yet : ℤ × ℕ
no_cache_yet = (negsuc 0, 0)

module _ {H : Type 0} (os : System Disk H) (path_of : FilePath → Bytes) (open_tar : Bytes → Reader)
    (root : FilePath) where
  abbrev pub objects_path : Bytes
  objects_path = path_of (cache_objects_dir root)

  abbrev pub tmp_path : Bytes
  tmp_path = path_of (cache_tmp_dir root)

  -- A pack is written beside the cache, and then moved into it.
  unfoldable pub fetch_pack : CacheResponse → Fs Disk ℕ
  unfolding System.◌>>=◌ file_exists write_tar
  fetch_pack r =
      let temp = os.join tmp_path (hex r.hash) in
      System.◌>>◌ (λ d. (if file_exists os temp d then os.remove_all temp else System.pure tt) d)
        (System.◌>>=◌ (write_tar os none objects_path temp (open_tar r.bytes) none) λ w.
          System.◌>>◌ (os.rename temp (os.join objects_path (hex r.hash))) (System.pure w.count))

  abbrev pub after_fetch : Result ℕ × Disk → Fetched → Result (Unit {0}) × Fetched
  after_fetch (ok n, d) s = (ok tt, record { count = (s.count + n) % 2 ^ 32; disk = d })
  after_fetch (err e, d) s = (err e, record s { disk = d })

  -- What a worker does with a response: a pack that the cache has is passed over.
  unfoldable pub write_pack_response : CacheResponse → Fetched → Result (Unit {0}) × Fetched
  unfolding fetch_pack file_exists
  write_pack_response r s =
      if file_exists os (os.join objects_path (hex r.hash)) s.disk
      then (ok tt, s)
      else after_fetch (fetch_pack r s.disk) s

  -- response.Version != version
  unfoldable pub accept_cached : ℤ → CacheResponse → Fetched → Result (Unit {0}) × Fetched
  accept_cached version r s = (if eqb_ℤ r.version version then ok tt else err bad_response, s)

  -- The goroutines of GetCache.
  abbrev pub cache_job : ℤ → Job CacheResponse Fetched
  cache_job version = record {
    capacity = 16;
    accept = accept_cached version;
    write = write_pack_response;
    on_lost = λ _. panic;
    cancelled = cancelled;
  }

  abbrev pub lock_path : Bytes
  lock_path = os.join (path_of root) (codes ".lock")

  -- os.RemoveAll where its error is passed over
  abbrev pub clear : Bytes → Fs Disk (Unit {0})
  clear path d = (ok tt, (os.remove_all path d).1)

  -- obtainCacheLockFile, and the deferred removal of the temporary directory if it fails
  abbrev pub after_lock : Result (Unit {0}) × Disk → Result (Unit {0}) × Disk
  after_lock (ok u, d) = (ok tt, d)
  after_lock (err e, d) = (err e, (os.remove_all tmp_path d).1)

  -- GetCache up to its request.
  unfoldable pub open_cache : Fs Disk (Unit {0})
  unfolding System.◌>>=◌
  open_cache = System.◌>>◌ (os.mkdir_all objects_path 493) (
      System.◌>>◌ (clear tmp_path)
        (System.◌>>◌ (os.mkdir_all tmp_path 493) (λ d. after_lock (os.create_new lock_path d))))

  -- cleanupCacheLockFile, and then the removal of the temporary directory
  unfoldable pub close_cache : Disk → Disk
  close_cache d = (os.remove_all tmp_path (os.remove lock_path d).1).1

  abbrev pub after_version : ℤ × ℕ → Result (Unit {0}) × Disk → Result (ℤ × ℕ) × Disk
  after_version r (ok u, d) = (ok r, close_cache d)
  after_version r (err e, d) = (err e, close_cache d)

  -- GetCache after its goroutines.
  unfoldable pub end_cache : ℤ → Option Error → Fetched → Result (ℤ × ℕ) × Disk
  unfolding close_cache add_cache_version
  end_cache version (some e) s = (err e, close_cache s.disk)
  end_cache version none s =
      after_version (version, s.count) (add_cache_version root version s.disk)

  -- What GetCache may return and leave: the version and the number of objects.
  pub data GetsCache (remote : Result (Stream CacheResponse)) (workers : ℕ) (d : Disk)
      (out : Result (ℤ × ℕ) × Disk) : Type 0 where
    refused :
        (e : Error) (d' : Disk)
        → open_cache d ≡ (err e, d')
        → out ≡ (err e, d')
        → GetsCache remote workers d out
    unsent :
        (e : Error) (d' : Disk)
        → open_cache d ≡ (ok tt, d')
        → first_response no_cache_yet remote ≡ err e
        → out ≡ (err e, close_cache d')
        → GetsCache remote workers d out
    absent :
        (r : ℤ × ℕ) (d' : Disk)
        → open_cache d ≡ (ok tt, d')
        → first_response no_cache_yet remote ≡ ok (done r)
        → out ≡ (ok r, close_cache d')
        → GetsCache remote workers d out
    fetched :
        (first : CacheResponse) (rest : List CacheResponse) (end : Result (Unit {0})) (d' : Disk)
        (n : ℕ) (h : Group CacheResponse Fetched)
        → open_cache d ≡ (ok tt, d')
        → first_response no_cache_yet remote ≡ ok (going first rest end)
        → Run
            (cache_job first.version)
            (start first rest end workers (record { count = 0; disk = d' }))
            n
            h
        → IsFinished h
        → out ≡ end_cache first.version h.error h.shared
        → GetsCache remote workers d out
