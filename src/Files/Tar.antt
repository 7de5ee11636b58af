-- ===== src/Files/Tar.antt =====
-- WriteTar of internal/files/writer.go: all objects of an archive, a pack in a directory of its own
-- first, which then takes the place of the old one.
use dateilager.Prelude.{
  ℕ, ◌+◌, ◌%◌, ◌^◌, Bool, true, false, not, Option, none, some, List, [], ◌∷◌, Bytes, codes,
  bytes_eq, if◌then◌else◌,
}
use dateilager.Result.{Result}
use dateilager.Files.System.{Fs, System, pure, ◌>>=◌, ◌>>◌}
use dateilager.Files.Matcher.{FileMatcher, match_name}
use dateilager.Files.Writer.{Header, Reader, file_exists, lift_result, write_object}

-- The count of objects and whether all names match. Next to an error the code gives a count too,
-- which is left out.
pub record Written : Type 0 where
  pub count : ℕ
  pub is_match : Bool

-- matcher != nil && !matcher.Match(name)
abbrev pub is_mismatch : Option FileMatcher → Bytes → Bool
is_mismatch none name = false
is_mismatch (some matcher) name = not (match_name matcher name)

abbrev pub count_object : Option FileMatcher → Bytes → Written → Written
count_object matcher name w = record {
  count = (w.count + 1) % 2 ^ 32;
  is_match = if is_mismatch matcher name then false else w.is_match;
}

module _ {D H : Type 0} (os : System D H) (matcher : Option FileMatcher) (cache_dir : Bytes) where
  -- The loop over the reader.
  unfoldable pub write_headers :
      Bytes → List Header → Result (Unit {0}) → List Bytes → Written → Fs D Written
  unfolding ◌>>=◌
  write_headers root [] end dirs w = lift_result os end >> pure w
  write_headers root (header ∷ headers) end dirs w = do
    dirs' ← write_object os root cache_dir header dirs
    write_headers root headers end dirs' (count_object matcher header.name w)

  -- The end of WriteTar: what was written takes the place of the pack.
  unfoldable pub replace_pack : Bytes → Bytes → Bytes → Fs D (Unit {0})
  unfolding ◌>>=◌
  replace_pack final_dir dir pack_path = do
    os.remove_all (os.join final_dir pack_path)
    λ d.
        (if file_exists os (os.join dir pack_path) d
            then os.rename (os.join dir pack_path) (os.join final_dir pack_path)
            else pure tt)
          d

  -- `defer os.RemoveAll(tmpDir)`, whose error is passed over
  abbrev pub then_remove : {A : Type 0} → Bytes → Fs D A → Fs D A
  then_remove dir run d = let (r, d') = run d in let (_, d'') = os.remove_all dir d' in (r, d'')

  -- The objects in a directory, which then takes the place of the pack.
  unfoldable pub write_in : Bytes → Bytes → Reader → Bytes → Fs D Written
  unfolding write_headers replace_pack
  write_in final_dir pack_path reader dir = do
    w ← write_headers dir reader.headers reader.end [] (record { count = 0; is_match = true })
    if bytes_eq dir final_dir then pure tt else replace_pack final_dir dir pack_path
    pure w

  unfoldable pub write_pack : Bytes → Bytes → Reader → Fs D Written
  unfolding write_in
  write_pack final_dir pack_path reader =
      os.mkdir_temp (os.join final_dir (codes ".dl")) (codes "dateilager_pack_path_") >>= λ dir.
      then_remove dir (write_in final_dir pack_path reader dir)

  -- WriteTar
  unfoldable pub write_tar : Bytes → Reader → Option Bytes → Fs D Written
  unfolding write_pack
  write_tar final_dir reader pack_path d =
      let plain : Fs D Written =
        write_headers final_dir reader.headers reader.end []
          (record { count = 0; is_match = true }) in
      elim pack_path [
        | none ↦ plain d
        | some path ↦
            if file_exists os (os.join final_dir path) d
            then write_pack final_dir path reader d
            else plain d
      ]
