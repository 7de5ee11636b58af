-- ===== src/Api/Cached.antt =====
-- pkg/api/cached.go: the daemon that puts the shared cache into volumes.
use dateilager.Prelude.{
  ℕ, ◌+◌, ◌-◌, ◌*◌, ◌%◌, ◌^◌, Bool, true, false, not, Option, none, some, List, [], ◌∷◌, ℤ, pos,
  negsuc, eqb_ℤ, Bytes, ltb, if◌then◌else◌,
}
use dateilager.Result.{
  Result, ok, err, status, invalid_argument, internal, no_such_file, no_cache, file_failed,
}
use dateilager.Files.System
use dateilager.Files.System.{Fs, System}
use dateilager.Files.Writer.{hardlink_dir}
use dateilager.Api.Fs.{Env, check_env}

-- Cached; the version is 0 until a cache was prepared
pub record Cached : Type 0 where
  pub env : Env
  pub staging_path : Bytes
  pub current_version : ℤ

-- Prepare, after GetCache returned a version and a count
unfoldable pub prepare : Result (ℤ × ℕ) → Cached → Result (Unit {0}) × Cached
prepare (ok (version, count)) c = (ok tt, record c { current_version = version })
prepare (err e) c = (err e, c)

-- Probe
unfoldable pub probe : Cached → Bool
probe c = not (eqb_ℤ c.current_version (pos 0))

-- NodePublishVolumeRequest, with the value of placeCacheAtPath in its context
pub record PublishRequest : Type 0 where
  pub volume_id : Bytes
  pub target_path : Bytes
  pub has_capability : Bool
  pub cache_suffix : Option Bytes

-- if field == "" { return … codes.InvalidArgument }
abbrev pub provided : Bytes → Result (Unit {0})
provided [] = err (status invalid_argument)
provided (c ∷ text) = ok tt

abbrev pub capable : Bool → Result (Unit {0})
capable true = ok tt
capable false = err (status invalid_argument)

module _ {D H : Type 0} (os : System D H) (c : Cached) where
  abbrev pub lift : {A : Type 0} → Result A → Fs D A
  lift r d = (r, d)

  -- os.Stat of a destination and unix.Access: it may be missing, or has to be a writable directory.
  unfoldable pub check_destination : Bytes → D → Result (Unit {0})
  check_destination path d = elim (os.stat_path path d) [
    | err no_such_file ↦ ok tt
    | err e ↦ err e
    | ok false ↦ err file_failed
    | ok true ↦ if os.is_writable path d then ok tt else err file_failed
  ]

  -- writeCache
  unfoldable pub write_cache : Bytes → Fs D ℤ
  unfolding System.◌>>=◌ check_destination hardlink_dir
  write_cache destination =
      if eqb_ℤ c.current_version (pos 0)
      then System.raise no_cache
      else System.◌>>◌ (λ d. (check_destination destination d, d))
          (System.◌>>◌ (hardlink_dir os c.staging_path destination) (System.pure c.current_version))

  -- PopulateDiskCache
  unfoldable pub populate_disk_cache : Bytes → Fs D ℤ
  unfolding write_cache
  populate_disk_cache path = System.◌>>◌ (lift (check_env c.env)) (write_cache path)

  -- Where the cache goes in a volume, and the mode of the volume.
  abbrev pub cache_path : PublishRequest → Bytes
  cache_path request = elim request.cache_suffix [
    | none ↦ request.target_path
    | some suffix ↦ os.join request.target_path suffix
  ]

  abbrev pub target_mode : PublishRequest → ℕ
  target_mode request = elim request.cache_suffix [ none ↦ 493 | some suffix ↦ 511 ]

  -- NodePublishVolume
  unfoldable pub node_publish_volume : PublishRequest → Fs D (Unit {0})
  unfolding System.◌>>=◌ write_cache
  node_publish_volume request = System.◌>>◌ (lift (provided request.volume_id)) (
      System.◌>>◌ (lift (provided request.target_path)) (
        System.◌>>◌ (lift (capable request.has_capability)) (
          System.◌>>◌ (os.mkdir_all request.target_path (target_mode request)) (
            System.◌>>◌ (os.chmod_path request.target_path (target_mode request))
              (System.◌>>=◌ (write_cache (cache_path request)) (λ _. System.pure tt))))))

  -- NodeUnpublishVolume
  unfoldable pub node_unpublish_volume : Bytes → Bytes → Fs D (Unit {0})
  unfolding System.◌>>=◌
  node_unpublish_volume volume_id target_path =
      System.◌>>◌ (lift (provided volume_id))
        (System.◌>>◌ (lift (provided target_path)) (os.remove_all target_path))

-- An int64 of 64 bits.
unfoldable pub signed64 : ℕ → ℤ
signed64 n =
    let bits = n % 2 ^ 64 in if ltb bits (2 ^ 63) then pos bits else negsuc (2 ^ 64 - 1 - bits)

-- VolumeUsage
pub record Usage : Type 0 where
  pub available : ℤ
  pub total : ℤ
  pub used : ℤ

-- The sum of the sizes of the files below a path; the sizes are not negative.
unfoldable pub total_size : List ℕ → ℕ
total_size [] = 0
total_size (size ∷ sizes) = (size + total_size sizes) % 2 ^ 64

-- freeBytes > math.MaxInt64, and else the three numbers; the used bytes are those of an int64.
unfoldable pub usage_of : ℕ → ℕ → ℕ → Result Usage
unfolding signed64
usage_of used available_blocks block_size =
    let free = (available_blocks * block_size) % 2 ^ 64 in
    if ltb (2 ^ 63 - 1) free
    then err (status internal)
    else ok
        (record { available = signed64 free; total = signed64 (free + used); used = signed64 used })

-- NodeGetVolumeStats: filepath.Walk gives the sizes of files, and Statfs Bavail and Bsize
unfoldable pub node_get_volume_stats :
    {D : Type 0}
    → (Bytes → D → Result (List ℕ))
    → (Bytes → D → Result (ℕ × ℕ))
    → Bytes
    → Bytes
    → D
    → Result Usage
unfolding usage_of total_size
node_get_volume_stats walk statfs [] path d = err (status invalid_argument)
node_get_volume_stats walk statfs (c ∷ volume_id) [] d = err (status invalid_argument)
node_get_volume_stats walk statfs (c ∷ volume_id) (b ∷ path) d = elim (walk (b ∷ path) d) [
  | err e ↦ err (status internal)
  | ok sizes ↦ elim (statfs (b ∷ path) d) [
    | err e ↦ err (status internal)
    | ok (blocks, block_size) ↦ usage_of (total_size sizes) blocks block_size
  ]
]
