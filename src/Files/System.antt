-- ===== src/Files/System.antt =====
-- Packages os, filepath, glob and fastwalk, as far as internal/files uses them: parameters of the
-- model, which work on a state D of the file system.
use dateilager.Prelude.{ℕ, ◌≡◌, refl, Bool, List, Bytes}
use dateilager.Result.{Error, Result, ok, err}

abbrev pub Fs : Type 0 → Type 0 → Type 0
Fs D A = D → Result A × D

-- What os.Remove answers, where a file that is not there and one that is in the way are told apart.
pub data Removal : Type 0 where
  removed not_there in_the_way : Removal
  not_removed : Error → Removal

-- os.DirEntry of a walk, with the answer of Info
pub record Walked : Type 0 where
  pub path : Bytes
  pub is_dir : Bool
  pub info : Result ℕ

-- H is what an open file is; a mode is a number.
pub record System (D H : Type 0) : Type 0 where
  -- filepath.Join and filepath.Dir
  pub join : Bytes → Bytes → Bytes
  pub dir : Bytes → Bytes
  -- os.Lstat, with the mode; a missing file is the error no_such_file
  pub lstat : Bytes → D → Result ℕ
  -- os.Stat, with whether it is a directory, and unix.Access for writing
  pub stat_path : Bytes → D → Result Bool
  pub is_writable : Bytes → D → Bool
  pub read_file : Bytes → D → Result Bytes
  pub read_link : Bytes → D → Result Bytes
  pub remove : Bytes → D → Removal × D
  pub remove_all : Bytes → Fs D (Unit {0})
  pub mkdir : Bytes → ℕ → Fs D (Unit {0})
  pub mkdir_all : Bytes → ℕ → Fs D (Unit {0})
  pub mkdir_temp : Bytes → Bytes → Fs D Bytes
  pub symlink : Bytes → Bytes → Fs D (Unit {0})
  pub link : Bytes → Bytes → Fs D (Unit {0})
  pub rename : Bytes → Bytes → Fs D (Unit {0})
  -- os.OpenFile with O_CREATE, O_RDWR and O_TRUNC, and the methods of a file
  pub open_file : Bytes → ℕ → Fs D H
  -- os.OpenFile with O_CREATE and O_EXCL, closed again
  pub create_new : Bytes → Fs D (Unit {0})
  pub chmod_path : Bytes → ℕ → Fs D (Unit {0})
  pub fallocate : H → ℕ → Fs D (Unit {0})
  pub write : H → Bytes → Fs D (Unit {0})
  pub stat : H → D → Result ℕ
  pub chmod : H → ℕ → Fs D (Unit {0})
  pub close : H → D → D
  -- fastwalk.Walk: the root and what is below it, directories first, and how the walk ends
  pub walk : Bytes → D → List Walked × Result (Unit {0})

module _ {D A : Type 0} where
  abbrev pub pure : A → Fs D A
  pure a d = (ok a, d)

  abbrev pub raise : Error → Fs D A
  raise e d = (err e, d)

module _ {D A B : Type 0} where
  abbrev pub continue : Result A → (A → Fs D B) → D → Result B × D
  continue (ok a) next d = next a d
  continue (err e) next d = (err e, d)

  infixl 10 ◌>>=◌
  unfoldable pub ◌>>=◌ : Fs D A → (A → Fs D B) → Fs D B
  ◌>>=◌ m next d = let (r, d') = m d in continue r next d'

infixl 10 ◌>>◌
abbrev pub ◌>>◌ : {D B : Type 0} → Fs D (Unit {0}) → Fs D B → Fs D B
m >> next = m >>= λ _. next

module _ {D A B : Type 0} where
  continue-eq-ok :
      (r : Result A) (next : A → Fs D B) (d : D) {b : B} {d' : D}
      → continue r next d ≡ (ok b, d')
      → (a : A) × (r ≡ ok a) × (next a d ≡ (ok b, d'))
  continue-eq-ok (ok a) next d h = (a, refl, h)
  continue-eq-ok (err e) next d h = cc

  -- Both operations gave a result if their sequence did.
  pub >>=-eq-ok :
      (m : Fs D A) (next : A → Fs D B) (d : D) {b : B} {d' : D}
      → (m >>= next) d ≡ (ok b, d')
      → (a : A) × ((m d).0 ≡ ok a) × (next a (m d).1 ≡ (ok b, d'))
  unfolding ◌>>=◌
  >>=-eq-ok m next d h = continue-eq-ok (m d).0 next (m d).1 h
