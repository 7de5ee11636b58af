-- ===== src/Client/Disk.antt =====
-- Package os, as far as pkg/client/dir.go uses it: entries by their path from the root, given as
-- its parts. An entry that the process may not use is `blocked`.
use dateilager.Prelude.{
  ◌≡◌, refl, Bool, true, false, ◌&&◌, List, [], ◌∷◌, ◌++◌, Bytes, bytes_eq, bytes_eq_iff,
  if◌then◌else◌, arith, Bool-cases, inl, inr, ◌⊎◌, ◌≢◌,
}
use dateilager.Result.{Result, ok, err, file_failed}

pub data Entry : Type 0 where
  absent folder blocked : Entry
  file : Bytes → Entry

abbrev pub FilePath : Type 0
FilePath = List Bytes

abbrev pub Disk : Type 0
Disk = FilePath → Entry

unfoldable pub path_eq : FilePath → FilePath → Bool
path_eq [] [] = true
path_eq [] (b ∷ q) = false
path_eq (a ∷ p) [] = false
path_eq (a ∷ p) (b ∷ q) = bytes_eq a b && path_eq p q

unfoldable pub put : FilePath → Entry → Disk → Disk
unfolding path_eq
put path entry disk p = if path_eq p path then entry else disk p

-- os.MkdirAll below an existing path: it stops at the first part that is no directory.
unfoldable pub mkdir_all : FilePath → FilePath → Disk → Result (Unit {0}) × Disk
unfolding put
mkdir_all at [] disk = (ok tt, disk)
mkdir_all at (part ∷ parts) disk =
    let here = at ++ part ∷ [] in
    elim (disk here) [
      | folder ↦ mkdir_all here parts disk
      | absent ↦ mkdir_all here parts (put here folder disk)
      | _ ↦ (err file_failed, disk)
    ]

-- os.ReadFile; a missing file is told apart by os.IsNotExist.
pub data Read : Type 0 where
  missing unreadable : Read
  content : Bytes → Read

unfoldable pub read_file : FilePath → Disk → Read
read_file path disk = elim (disk path) [
  | absent ↦ missing
  | file bytes ↦ content bytes
  | _ ↦ unreadable
]

-- os.OpenFile with O_CREATE and one write, which replaces or extends the content.
abbrev pub written : (Bytes → Bytes) → Entry → Result Bytes
written change absent = ok (change [])
written change (file bytes) = ok (change bytes)
written change _ = err file_failed

-- `parent` is the directory of the path, which has to exist.
unfoldable pub write_with : (Bytes → Bytes) → FilePath → Bytes → Disk → Result (Unit {0}) × Disk
unfolding put
write_with change parent name disk = elim (disk parent) [
  | folder ↦ elim (written change (disk (parent ++ name ∷ []))) [
    | ok bytes ↦ (ok tt, put (parent ++ name ∷ []) (file bytes) disk)
    | err e ↦ (err e, disk)
  ]
  | _ ↦ (err file_failed, disk)
]

pub path_eq_iff : (p q : FilePath) → (path_eq p q ≡ true → p ≡ q) × (p ≡ q → path_eq p q ≡ true)
unfolding path_eq
path_eq_iff [] [] = (λ h. refl, λ h. refl)
path_eq_iff [] (b ∷ q) = (λ h. cc, λ h. cc)
path_eq_iff (a ∷ p) [] = (λ h. cc, λ h. cc)
path_eq_iff (a ∷ p) (b ∷ q) =
    let r = path_eq_iff p q in
    let s = bytes_eq_iff a b in (λ h. ground (arith, r.0, s.0), λ h. ground (arith, r.1, s.1))

pub put-same : (path : FilePath) (entry : Entry) (disk : Disk) → put path entry disk path ≡ entry
unfolding put
put-same path entry disk = rw ((path_eq_iff path path).1 refl) refl

pub put-other :
    (path q : FilePath) (entry : Entry) (disk : Disk) → q ≢ path → put path entry disk q ≡ disk q
unfolding put
put-other path q entry disk n = elim (Bool-cases (path_eq q path)) [
  | inl e ↦ absurd (n ((path_eq_iff q path).0 e))
  | inr e ↦ rw e refl
]

pub Entry-cases :
    (e : Entry)
    → (e ≡ absent) ⊎ ((e ≡ folder) ⊎ ((e ≡ blocked) ⊎ ((bytes : Bytes) × (e ≡ file bytes))))
Entry-cases absent = inl refl
Entry-cases folder = inr (inl refl)
Entry-cases blocked = inr (inr (inl refl))
Entry-cases (file bytes) = inr (inr (inr (bytes, refl)))

pub write_with-put :
    (change : Bytes → Bytes) (parent : FilePath) (name bytes : Bytes) (disk : Disk)
    → disk parent ≡ folder
    → written change (disk (parent ++ name ∷ [])) ≡ ok bytes
    → write_with change parent name disk ≡ (ok tt, put (parent ++ name ∷ []) (file bytes) disk)
unfolding write_with
write_with-put change parent name bytes disk f w = rw (f, w, write_with) refl
