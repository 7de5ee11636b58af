-- ===== src/Client/Dir/Kept.antt =====
-- What is written to the version file and to the file of cache versions is what is read back.
use dateilager.Prelude.{
  subst, ◌≤◌, ◌≡◌, refl, ap, ◌∙◌, sym, List, [], ◌∷◌, ◌++◌, append_assoc, append-nil, ℤ, Bytes,
  codes, split, length, length-append, arith, inl, inr, ◌≢◌, All,
}
use dateilager.Result.{ok}
use dateilager.Decimal.{
  parse_int, format_int, IsInt64, parse_int-format_int, format_int-IsPiece, split-append,
}
use dateilager.Client.Disk.{
  Entry, absent, folder, blocked, file, FilePath, Disk, put, mkdir_all, read_file, content,
  write_with, put-same, written, write_with-put, put-other, Entry-cases,
}
use dateilager.Client.Dir.{
  metadata_dir, ensure_metadata_dir, write_version_file, read_version_file, add_cache_version,
  read_cache_version_file, parse_versions,
}
use dateilager.Client.Dir.Trimmed.{trim_space-format_int}

-- Nothing but folders is in the way of making a folder.
abbrev pub MayBeFolder : Entry → Type 0
MayBeFolder absent = Unit
MayBeFolder folder = Unit
MayBeFolder _ = ⊥

abbrev pub MayBeFile : Entry → Type 0
MayBeFile absent = Unit
MayBeFile (file _) = Unit
MayBeFile _ = ⊥

abbrev pub IsClear : FilePath → FilePath → Disk → Type 0
IsClear at [] disk = Unit
IsClear at (part ∷ parts) disk =
    MayBeFolder (disk (at ++ part ∷ [])) × IsClear (at ++ part ∷ []) parts disk

longer : (p : FilePath) (x : Bytes) (q : FilePath) → p ++ x ∷ q ≢ p
longer p x q e = let n = ap length e in let m = length-append p (x ∷ q) in omega arith

IsClear-put :
    (p : FilePath) (entry : Entry) (at parts : FilePath) (disk : Disk)
    → length p ≤ length at
    → IsClear at parts disk
    → IsClear at parts (put p entry disk)
IsClear-put p entry at [] disk l c = tt
IsClear-put p entry at (part ∷ parts) disk l c =
    let n = length-append at (part ∷ []) in
    let away : at ++ part ∷ [] ≢ p = (λ e. let m = ap length e in omega arith) in
    (
      rw (put-other p (at ++ part ∷ []) entry disk away) c.0,
      IsClear-put p entry (at ++ part ∷ []) parts disk (omega arith) c.1,
    )

-- MkdirAll makes the folder.
mkdir_all-folder :
    (at parts : FilePath) (disk : Disk)
    → disk at ≡ folder
    → IsClear at parts disk
    → ((mkdir_all at parts disk).0 ≡ ok tt) × ((mkdir_all at parts disk).1 (at ++ parts) ≡ folder)
unfolding mkdir_all
mkdir_all-folder at [] disk f c = (refl, ap disk (append-nil at) ∙ f)
mkdir_all-folder at (part ∷ parts) disk f c =
    let here = at ++ part ∷ [] in
    let same : at ++ part ∷ parts ≡ here ++ parts = sym (append_assoc at (part ∷ []) parts) in
    elim (Entry-cases (disk here)) [
      | inl e ↦
          let d = put here folder disk in
          let r =
            mkdir_all-folder here parts d (put-same here folder disk)
              (IsClear-put here folder here parts disk (omega arith) c.1) in
          rw (e, mkdir_all) (r.0, ap (mkdir_all here parts d).1 same ∙ r.1)
      | inr (inl e) ↦
          let r = mkdir_all-folder here parts disk e c.1 in
          rw (e, mkdir_all) (r.0, ap (mkdir_all here parts disk).1 same ∙ r.1)
      | inr (inr (inl e)) ↦ absurd (rw e at c.0)
      | inr (inr (inr (bytes, e))) ↦ absurd (rw e at c.0)
    ]

-- MkdirAll leaves what is below the folder.
mkdir_all-beyond :
    (at parts : FilePath) (x : Bytes) (disk : Disk)
    → (mkdir_all at parts disk).1 (at ++ (parts ++ x ∷ [])) ≡ disk (at ++ (parts ++ x ∷ []))
unfolding mkdir_all
mkdir_all-beyond at [] x disk = refl
mkdir_all-beyond at (part ∷ parts) x disk =
    let here = at ++ part ∷ [] in
    let path = at ++ part ∷ (parts ++ x ∷ []) in
    let same : path ≡ here ++ (parts ++ x ∷ []) =
      sym (append_assoc at (part ∷ []) (parts ++ x ∷ [])) in
    let rest : (d : Disk) → (mkdir_all here parts d).1 path ≡ d path = (λ d.
      ap (mkdir_all here parts d).1 same ∙ mkdir_all-beyond here parts x d ∙ ap d (sym same)) in
    let n = length-append here (parts ++ x ∷ []) in
    let m = length-append parts (x ∷ []) in
    let away : path ≢ here = (λ e. let l = ap length (sym same ∙ e) in omega arith) in
    elim (Entry-cases (disk here)) [
      | inl e ↦
          rw (e, mkdir_all) (rest (put here folder disk) ∙ put-other here path folder disk away)
      | inr (inl e) ↦ rw (e, mkdir_all) (rest disk)
      | inr (inr (inl e)) ↦ rw (e, mkdir_all) refl
      | inr (inr (inr (bytes, e))) ↦ rw (e, mkdir_all) refl
    ]

written-MayBeFile : (text : Bytes) (e : Entry) → MayBeFile e → written (λ _. text) e ≡ ok text
written-MayBeFile text absent m = refl
written-MayBeFile text (file bytes) m = refl
written-MayBeFile text folder m = absurd m
written-MayBeFile text blocked m = absurd m

write_version_file-put :
    (dir : FilePath) (v : ℤ) (disk : Disk)
    → disk [] ≡ folder
    → IsClear [] (dir ++ metadata_dir ∷ []) disk
    → MayBeFile (disk ((dir ++ metadata_dir ∷ []) ++ codes "version" ∷ []))
    → write_version_file dir v disk ≡ (
      ok tt,
      put
          ((dir ++ metadata_dir ∷ []) ++ codes "version" ∷ [])
          (file (format_int v))
          (ensure_metadata_dir dir disk).1,
    )
unfolding write_version_file ensure_metadata_dir
write_version_file-put dir v disk f c m =
    let made = mkdir_all-folder [] (dir ++ metadata_dir ∷ []) disk f c in
    let there = mkdir_all-beyond [] (dir ++ metadata_dir ∷ []) (codes "version") disk in
    rw (made.0, write_version_file)
      (write_with-put (λ _. format_int v) (dir ++ metadata_dir ∷ []) (codes "version")
        (format_int v) (ensure_metadata_dir dir disk).1 made.1
        (ap (written (λ _. format_int v)) there
          ∙ written-MayBeFile (format_int v)
              (disk ((dir ++ metadata_dir ∷ []) ++ codes "version" ∷ [])) m))

read_file-content :
    (path : FilePath) (bytes : Bytes) (disk : Disk)
    → disk path ≡ file bytes
    → read_file path disk ≡ content bytes
unfolding read_file
read_file-content path bytes disk e = rw (e, read_file) refl

-- Once WriteVersionFile can make the metadata directory and its file, it succeeds, and
-- ReadVersionFile then returns the version that was written, whichever int64 it is.
pub read_version_file-write :
    (dir : FilePath) (v : ℤ) (disk : Disk)
    → IsInt64 v
    → disk [] ≡ folder
    → IsClear [] (dir ++ metadata_dir ∷ []) disk
    → MayBeFile (disk ((dir ++ metadata_dir ∷ []) ++ codes "version" ∷ []))
    → ((write_version_file dir v disk).0 ≡ ok tt)
      × (read_version_file dir (write_version_file dir v disk).1 ≡ ok v)
unfolding read_version_file read_file
read_version_file-write dir v disk i f c m =
    let path = (dir ++ metadata_dir ∷ []) ++ codes "version" ∷ [] in
    let w = write_version_file-put dir v disk f c m in
    let there = put-same path (file (format_int v)) (ensure_metadata_dir dir disk).1 in
    let text = trim_space-format_int v in
    let back = parse_int-format_int v i in
    (
      ap (λ p. p.0) w,
      ap (λ p. read_version_file dir p.1) w
          ∙ rw
              (
                read_file-content (dir ++ metadata_dir ∷ codes "version" ∷ []) (format_int v)
                    (put path (file (format_int v)) (ensure_metadata_dir dir disk).1)
                    (ap (put path (file (format_int v)) (ensure_metadata_dir dir disk).1)
                        (sym (append_assoc dir (metadata_dir ∷ []) (codes "version" ∷ [])))
                      ∙ there),
                text,
                back,
                read_version_file,
              )
              refl,
    )

-- A file to which the versions were added, whatever follows them.
abbrev Holds : List ℤ → Bytes → Type 0
Holds versions bytes =
    (rest : Bytes)
    → parse_versions (split b'\n' (bytes ++ rest)) ≡ versions ++ parse_versions (split b'\n' rest)

Holds-line :
    (versions : List ℤ) (bytes : Bytes) (v : ℤ)
    → IsInt64 v
    → Holds versions bytes
    → Holds (versions ++ v ∷ []) (bytes ++ (format_int v ++ b'\n' ∷ []))
unfolding parse_versions
Holds-line versions bytes v i h rest =
    let line = parse_int-format_int v i in
    let piece = split-append b'\n' (format_int v) rest (format_int-IsPiece b'\n' v refl) in
    let text : (bytes ++ (format_int v ++ b'\n' ∷ [])) ++ rest
        ≡ bytes ++ (format_int v ++ b'\n' ∷ rest) =
      append_assoc bytes (format_int v ++ b'\n' ∷ []) rest
      ∙ ap (λ t. bytes ++ t) (append_assoc (format_int v) (b'\n' ∷ []) rest) in
    let first : parse_versions (split b'\n' (format_int v ++ b'\n' ∷ rest))
        ≡ v ∷ parse_versions (split b'\n' rest) =
      ap parse_versions piece ∙ rw (line, parse_versions) refl in
    ap (λ t. parse_versions (split b'\n' t)) text
    ∙ h (format_int v ++ b'\n' ∷ rest)
    ∙ ap (λ vs. versions ++ vs) first
    ∙ sym (append_assoc versions (v ∷ []) (parse_versions (split b'\n' rest)))

abbrev FileHolds : List ℤ → Entry → Type 0
FileHolds versions absent = versions ≡ []
FileHolds versions (file bytes) = Holds versions bytes
FileHolds versions _ = ⊥

-- One run of GetCache after another, each with the version of its cache.
unfoldable pub add_cache_versions : FilePath → List ℤ → Disk → Disk
add_cache_versions root [] disk = disk
add_cache_versions root (v ∷ vs) disk = add_cache_versions root vs (add_cache_version root v disk).1

add_cache_version-FileHolds :
    (root : FilePath) (versions : List ℤ) (v : ℤ) (disk : Disk)
    → IsInt64 v
    → disk root ≡ folder
    → FileHolds versions (disk (root ++ codes "versions" ∷ []))
    → ((add_cache_version root v disk).1 root ≡ folder)
      × FileHolds
          (versions ++ v ∷ [])
          ((add_cache_version root v disk).1 (root ++ codes "versions" ∷ []))
unfolding add_cache_version write_with
add_cache_version-FileHolds root versions v disk i r h =
    let path = root ++ codes "versions" ∷ [] in
    let line = format_int v ++ codes "\n" in
    let away : root ≢ path = (λ e. longer root (codes "versions") [] (sym e)) in
    let add : (bytes : Bytes)
        → written (λ old. old ++ line) (disk path) ≡ ok (bytes ++ line)
        → Holds versions bytes
        → ((add_cache_version root v disk).1 root ≡ folder)
          × FileHolds (versions ++ v ∷ []) ((add_cache_version root v disk).1 path) =
      λ bytes w g.
        let p =
          write_with-put (λ old. old ++ line) root (codes "versions") (bytes ++ line) disk r w in
        (
          ap (λ q. q.1 root) p ∙ put-other path root (file (bytes ++ line)) disk away ∙ r,
          subst (FileHolds (versions ++ v ∷ []))
              (sym (ap (λ q. q.1 path) p ∙ put-same path (file (bytes ++ line)) disk))
              (Holds-line versions bytes v i g),
        ) in
    elim (Entry-cases (disk path)) [
      | inl e ↦
          let none_yet : versions ≡ [] = rw e at h in add [] (rw e refl) (λ rest. rw none_yet refl)
      | inr (inl e) ↦ absurd (rw e at h)
      | inr (inr (inl e)) ↦ absurd (rw e at h)
      | inr (inr (inr (bytes, e))) ↦ add bytes (rw e refl) (rw e at h)
    ]

read-FileHolds :
    (root : FilePath) (versions : List ℤ) (disk : Disk)
    → FileHolds versions (disk (root ++ codes "versions" ∷ []))
    → read_cache_version_file root disk ≡ versions
unfolding read_cache_version_file read_file parse_versions split parse_int
read-FileHolds root versions disk h = elim (Entry-cases (disk (root ++ codes "versions" ∷ []))) [
  | inl e ↦ rw (e, read_cache_version_file, read_file) (sym (rw e at h))
  | inr (inl e) ↦ absurd (rw e at h)
  | inr (inr (inl e)) ↦ absurd (rw e at h)
  | inr (inr (inr (bytes, e))) ↦
      let g : Holds versions bytes = rw e at h in
      rw (read_file-content (root ++ codes "versions" ∷ []) bytes disk e, read_cache_version_file)
        (ap (λ t. parse_versions (split b'\n' t)) (sym (append-nil bytes))
          ∙ g []
          ∙ append-nil versions)
]

read-add :
    (root : FilePath) (versions vs : List ℤ) (disk : Disk)
    → All IsInt64 vs
    → disk root ≡ folder
    → FileHolds versions (disk (root ++ codes "versions" ∷ []))
    → read_cache_version_file root (add_cache_versions root vs disk) ≡ versions ++ vs
unfolding add_cache_versions
read-add root versions [] disk a r h =
    read-FileHolds root versions disk h ∙ sym (append-nil versions)
read-add root versions (v ∷ vs) disk a r h =
    let s = add_cache_version-FileHolds root versions v disk a.0 r h in
    read-add root (versions ++ v ∷ []) vs (add_cache_version root v disk).1 a.1 s.0 s.1
    ∙ append_assoc versions (v ∷ []) vs

-- The versions that GetCache added, from a directory without the file, are those that are read,
-- in their order.
pub read_cache_version_file-add :
    (root : FilePath) (versions : List ℤ) (disk : Disk)
    → All IsInt64 versions
    → disk root ≡ folder
    → disk (root ++ codes "versions" ∷ []) ≡ absent
    → read_cache_version_file root (add_cache_versions root versions disk) ≡ versions
read_cache_version_file-add root versions disk a r h =
    read-add root [] versions disk a r (rw h refl)
