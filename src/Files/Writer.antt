-- ===== src/Files/Writer.antt =====
-- internal/files/writer.go and the preallocation of internal/files: an archive becomes files,
-- directories and links.
--
-- The reader is the list of headers that Next returns, and the result that ends it. A walk of a
-- directory is taken at its start, since it creates files elsewhere.
use dateilager.Prelude.{
  ℕ, Bool, true, false, List, [], ◌∷◌, Bytes, bytes_eq, any, drop, length, has_prefix, ltb, ◌==◌,
  if◌then◌else◌,
}
use dateilager.Result.{Result, ok, err, file_failed}
use dateilager.Db.Content.{hex}
use dateilager.Files.System.{Fs, System, Walked, Removal, not_removed, pure, raise, ◌>>=◌, ◌>>◌}

-- tar.Header, with the content that follows it or the error of reading it
pub record Header : Type 0 where
  pub name : Bytes
  pub type_flag : ℕ
  pub mode : ℕ
  pub size : ℕ
  pub link_name : Bytes
  pub content : Result Bytes

pub record Reader : Type 0 where
  pub headers : List Header
  pub end : Result (Unit {0})

-- strings.TrimPrefix
abbrev pub trim_prefix : Bytes → Bytes → Bytes
trim_prefix text front = if has_prefix text front then drop (length front) text else text

module _ {D H : Type 0} (os : System D H) where
  -- fileExists
  unfoldable pub file_exists : Bytes → D → Bool
  file_exists path d = elim (os.lstat path d) [ ok _ ↦ true | err _ ↦ false ]

  -- retryFileErrors
  unfoldable pub retry_file_errors : {A : Type 0} → Bytes → Fs D A → Fs D A
  unfolding ◌>>=◌
  retry_file_errors path run d =
      let (r, d') = run d in elim r [ ok a ↦ (ok a, d') | err _ ↦ (os.remove_all path >> run) d' ]

  -- PreAllocate, as on Linux
  unfoldable pub pre_allocate : H → ℕ → Fs D (Unit {0})
  pre_allocate file size = if ltb 0 size then os.fallocate file size else pure tt

  -- makeSymlink
  unfoldable pub make_symlink : Bytes → Bytes → Fs D (Unit {0})
  unfolding retry_file_errors
  make_symlink old new =
      retry_file_errors (os.dir new) (os.mkdir_all (os.dir new) 511)
      >> retry_file_errors new (os.symlink old new)

  -- One file or directory of a walk; the root exists.
  unfoldable pub link_walked : Bytes → Bytes → Walked → Fs D (Unit {0})
  unfolding ◌>>=◌
  link_walked old_dir new_dir w =
      let new_path = os.join new_dir (trim_prefix w.path old_dir) in
      if bytes_eq new_path new_dir
      then pure tt
      else if w.is_dir
      then elim w.info [ err e ↦ raise e | ok mode ↦ os.mkdir new_path mode ]
      else os.link w.path new_path

  unfoldable pub link_all : Bytes → Bytes → List Walked → Fs D (Unit {0})
  unfolding link_walked
  link_all old_dir new_dir [] = pure tt
  link_all old_dir new_dir (w ∷ ws) = link_walked old_dir new_dir w >> link_all old_dir new_dir ws

  abbrev pub lift_result : {A : Type 0} → Result A → Fs D A
  lift_result r d = (r, d)

  -- HardlinkDir
  unfoldable pub hardlink_dir : Bytes → Bytes → Fs D (Unit {0})
  unfolding ◌>>=◌ file_exists link_all
  hardlink_dir old_dir new_dir = do
    λ d. (if file_exists new_dir d then os.remove_all new_dir else pure tt) d
    mode ← λ d. (os.lstat old_dir d, d)
    os.mkdir_all new_dir mode
    (walked, end) ← λ d. (ok (os.walk old_dir d), d)
    link_all old_dir new_dir walked
    lift_result end

  -- os.Remove of a deleted path, where two of its errors are passed over
  abbrev pub after_removal : Removal × D → Result (Unit {0}) × D
  after_removal (not_removed e, d) = (err e, d)
  after_removal (_, d) = (ok tt, d)

  abbrev pub remove_path : Bytes → Fs D (Unit {0})
  remove_path path d = after_removal (os.remove path d)

  abbrev pub known : List Bytes → Bytes → Bool
  known dirs path = any (bytes_eq path) dirs

  -- A directory once, unless it is known; whether MkdirAll was called.
  unfoldable pub ensure_dir : List Bytes → Bytes → Fs D (Bool × List Bytes)
  unfolding retry_file_errors
  ensure_dir dirs path =
      if known dirs path
      then pure (false, dirs)
      else (retry_file_errors path (os.mkdir_all path 511) >> pure (true, path ∷ dirs))

  -- The mode of a file that may not be new.
  unfoldable pub fix_mode : H → ℕ → Fs D (Unit {0})
  unfolding ◌>>=◌
  fix_mode file mode =
      (λ d. (os.stat file d, d)) >>= λ found. if found == mode then pure tt else os.chmod file mode

  abbrev pub close_file : H → Fs D (Unit {0})
  close_file file d = (ok tt, os.close file d)

  -- The case of a regular file; CopyContent reads all of the content before it writes.
  unfoldable pub write_file : Bytes → Header → List Bytes → Fs D (List Bytes)
  unfolding ensure_dir pre_allocate fix_mode
  write_file path header dirs = do
    made ← ensure_dir dirs (os.dir path)
    file ← retry_file_errors path (os.open_file path header.mode)
    pre_allocate file header.size
    content ← lift_result header.content
    os.write file content
    if made.0 then pure tt else fix_mode file header.mode
    close_file file
    pure made.1

  -- The case of a cached pack.
  unfoldable pub write_cached : Bytes → Bytes → Header → Fs D (Unit {0})
  unfolding hardlink_dir
  write_cached cache_dir path header = do
    content ← lift_result header.content
    hardlink_dir (os.join (os.join cache_dir (hex content)) header.name) path

  -- writeObject, which gives the directories that are known to exist
  unfoldable pub write_object : Bytes → Bytes → Header → List Bytes → Fs D (List Bytes)
  unfolding write_file write_cached make_symlink
  write_object root cache_dir header dirs =
      let path = os.join root header.name in
      let t = header.type_flag in
      if t == b'C'
      then (write_cached cache_dir path header >> pure dirs)
      else if t == b'0'
      then write_file path header dirs
      else if t == b'5'
      then (ensure_dir dirs path >>= λ made. pure made.1)
      else if t == b'2'
      then (make_symlink header.link_name path >> pure dirs)
      else if t == b'D'
      then (remove_path path >> pure dirs)
      else raise file_failed
