-- ===== src/Client/Dir.antt =====
-- pkg/client/dir.go and the version file of GetCache: the version that a directory is at, and the
-- versions of the caches on this machine.
pub mod Kept
pub mod Trimmed
use dateilager.Prelude.{
  ℕ, zero, suc, ◌+◌, ◌<◌, ◌≡◌, refl, ap, ◌∙◌, Bool, true, false, ◌&&◌, Option, none, some, List, [],
  ◌∷◌, ◌++◌, map, append_assoc, ℤ, pos, Bytes, codes, split, length, length-append, arith, inl, inr,
  ◌≢◌, ◌⊎◌, drop, find, has_prefix, All, append-nil,
}
use dateilager.Result.{Error, Result, ok, err, file_failed, bad_number}
use dateilager.Decimal.{
  parse_int, format_int, IsInt64, parse_int-format_int, format_int-IsPiece, split-append, IsPiece,
  format_int-decimal, is_decimal,
}
use dateilager.Client.Disk.{
  Entry, absent, folder, blocked, file, FilePath, Disk, put, mkdir_all, Read, missing, unreadable,
  content, read_file, write_with, put-same, put-other,
}

abbrev pub metadata_dir : Bytes
metadata_dir = codes ".dl"

-- ensureMetadataDir
unfoldable pub ensure_metadata_dir : FilePath → Disk → Result (Unit {0}) × Disk
ensure_metadata_dir dir = mkdir_all [] (dir ++ metadata_dir ∷ [])

-- CacheObjectsDir, CacheTmpDir, cacheVersionPath
abbrev pub cache_objects_dir : FilePath → FilePath
cache_objects_dir root = root ++ codes "objects" ∷ []

abbrev pub cache_tmp_dir : FilePath → FilePath
cache_tmp_dir root = root ++ codes "tmp" ∷ []

abbrev pub cache_version_path : FilePath → FilePath
cache_version_path root = root ++ codes "versions" ∷ []

-- The numbers among the lines.
unfoldable pub parse_versions : List Bytes → List ℤ
parse_versions [] = []
parse_versions (line ∷ lines) =
    let rest = parse_versions lines in
    elim (parse_int line) [ none ↦ rest | some version ↦ version ∷ rest ]

-- ReadCacheVersionFile
unfoldable pub read_cache_version_file : FilePath → Disk → List ℤ
unfolding parse_versions
read_cache_version_file root disk = elim (read_file (cache_version_path root) disk) [
  | content bytes ↦ parse_versions (split b'\n' bytes)
  | _ ↦ []
]

-- The white space of unicode.IsSpace, in UTF-8.
abbrev pub spaces : List Bytes
spaces =
    (9 ∷ [])
    ∷ (10 ∷ [])
    ∷ (11 ∷ [])
    ∷ (12 ∷ [])
    ∷ (13 ∷ [])
    ∷ (32 ∷ [])
    ∷ (194 ∷ 133 ∷ [])
    ∷ (194 ∷ 160 ∷ [])
    ∷ (225 ∷ 154 ∷ 128 ∷ [])
    ∷ (226 ∷ 128 ∷ 128 ∷ [])
    ∷ (226 ∷ 128 ∷ 129 ∷ [])
    ∷ (226 ∷ 128 ∷ 130 ∷ [])
    ∷ (226 ∷ 128 ∷ 131 ∷ [])
    ∷ (226 ∷ 128 ∷ 132 ∷ [])
    ∷ (226 ∷ 128 ∷ 133 ∷ [])
    ∷ (226 ∷ 128 ∷ 134 ∷ [])
    ∷ (226 ∷ 128 ∷ 135 ∷ [])
    ∷ (226 ∷ 128 ∷ 136 ∷ [])
    ∷ (226 ∷ 128 ∷ 137 ∷ [])
    ∷ (226 ∷ 128 ∷ 138 ∷ [])
    ∷ (226 ∷ 128 ∷ 168 ∷ [])
    ∷ (226 ∷ 128 ∷ 169 ∷ [])
    ∷ (226 ∷ 128 ∷ 175 ∷ [])
    ∷ (226 ∷ 129 ∷ 159 ∷ [])
    ∷ (227 ∷ 128 ∷ 128 ∷ [])
    ∷ []

unfoldable pub reverse : {A : Type 0} → List A → List A
reverse [] = []
reverse (x ∷ xs) = reverse xs ++ x ∷ []

-- The text after its leading spaces, of which there are at most `fuel`.
unfoldable pub trim_left : List Bytes → ℕ → Bytes → Bytes
trim_left blanks zero text = text
trim_left blanks (suc fuel) text = elim (find (has_prefix text) blanks) [
  | none ↦ text
  | some blank ↦ trim_left blanks fuel (drop (length blank) text)
]

-- strings.TrimSpace
unfoldable pub trim_space : Bytes → Bytes
unfolding trim_left reverse find has_prefix
trim_space text =
    let left = trim_left spaces (length text) text in
    reverse (trim_left (map reverse spaces) (length left) (reverse left))

-- ReadVersionFile; a directory without the file is at version 0.
unfoldable pub read_version_file : FilePath → Disk → Result ℤ
unfolding trim_space
read_version_file dir disk = elim (read_file (dir ++ metadata_dir ∷ codes "version" ∷ []) disk) [
  | missing ↦ ok (pos 0)
  | unreadable ↦ err file_failed
  | content bytes ↦ elim (parse_int (trim_space bytes)) [
    | none ↦ err bad_number
    | some version ↦ ok version
  ]
]

-- WriteVersionFile
unfoldable pub write_version_file : FilePath → ℤ → Disk → Result (Unit {0}) × Disk
unfolding ensure_metadata_dir
write_version_file dir version disk =
    let (made, disk') = ensure_metadata_dir dir disk in
    elim made [
      | err e ↦ (err e, disk')
      | ok _ ↦
          write_with (λ _. format_int version) (dir ++ metadata_dir ∷ []) (codes "version") disk'
    ]

-- The end of GetCache: it adds a line to the file of versions.
unfoldable pub add_cache_version : FilePath → ℤ → Disk → Result (Unit {0}) × Disk
add_cache_version root version =
    write_with (λ bytes. bytes ++ (format_int version ++ codes "\n")) root (codes "versions")
