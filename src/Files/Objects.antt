-- ===== src/Files/Objects.antt =====
-- ObjectFromFilePath of internal/pb/fs.go: the object that an update sends for a path.
use dateilager.Prelude.{ℕ, true, false, [], ◌∷◌, pos, Bytes, length, ◌==◌, if◌then◌else◌}
use dateilager.Result.{Result, ok, err, no_such_file, bad_link, ◌>>=◌}
use dateilager.Db.Update.{Object}
use dateilager.Db.Tar.{tar_type_from_mode, type_reg, type_symlink}
use dateilager.Files.System.{System}

-- &Object{Path: path, Deleted: true}
abbrev pub deleted_object : Bytes → Object
deleted_object path = record {
  path = path;
  mode = pos 0;
  size = pos 0;
  deleted = true;
  content = [];
}

-- A link to nothing is refused.
abbrev pub link_content : Bytes → Result Bytes
link_content [] = err bad_link
link_content (c ∷ target) = ok (c ∷ target)

module _ {D H : Type 0} (os : System D H) where
  unfoldable pub file_content : ℕ → Bytes → D → Result Bytes
  file_content type path d =
      if type == type_reg
      then os.read_file path d
      else if type == type_symlink
      then (os.read_link path d >>= link_content)
      else ok []

  -- ObjectFromFilePath
  unfoldable pub object_from_file_path : Bytes → Bytes → D → Result Object
  unfolding file_content tar_type_from_mode
  object_from_file_path directory path d =
      let full_path = os.join directory path in
      elim (os.lstat full_path d) [
        | err no_such_file ↦ ok (deleted_object path)
        | err e ↦ err e
        | ok mode ↦ file_content (tar_type_from_mode mode) full_path d >>= λ content. ok (record {
          path = path;
          mode = pos mode;
          size = pos (length content);
          deleted = false;
          content = content;
        })
      ]
