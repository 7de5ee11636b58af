-- ===== src/Files/Mode.antt =====
-- The mode of a file that WriteTar writes first into a directory.
use dateilager.Prelude.{ℕ, ◌≡◌, refl, inl, inr, false, List, Bytes}
use dateilager.Result.{Result, Result-cases}
use dateilager.Files.System.{Fs, System, ◌>>=◌}
use dateilager.Files.Writer.{Header, retry_file_errors, known, ensure_dir, write_file}

module _ {D H : Type 0} (os : System D H) where
  -- A regular file whose directory was not known before is written in the same way whatever Stat
  -- reports and Chmod does: its mode is not looked at, also if the file was there with another mode.
  pub write_file-mode :
      (stat : H → D → Result ℕ) (chmod : H → ℕ → Fs D (Unit {0})) (path : Bytes) (header : Header)
      (dirs : List Bytes) (d : D)
      → known os dirs (os.dir path) ≡ false
      → write_file os path header dirs d
        ≡ write_file (record os { stat = stat; chmod = chmod }) path header dirs d
  unfolding write_file ensure_dir ◌>>=◌
  write_file-mode stat chmod path header dirs d e =
      elim (Result-cases
        (retry_file_errors os (os.dir path) (os.mkdir_all (os.dir path) 511) d).0) [
          | inl (u, q) ↦ rw (e, q, write_file, ensure_dir) refl
          | inr (f, q) ↦ rw (e, q, write_file, ensure_dir) refl
        ]
