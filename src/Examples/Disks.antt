-- ===== src/Examples/Disks.antt =====
-- Files that are written: below a blocked path, and over some content.
use dateilager.Prelude.{
  false, ℕ, ap, subst, sym, drop, length, ◌≤◌, ◌≡◌, refl, Bool, true, not, List, [], ◌∷◌, ◌++◌,
  Bytes, codes, bytes_eq, any, filter, if◌then◌else◌,
}
use dateilager.Result.{ok, err, file_failed}
use dateilager.Files.System.{Fs, System, removed}
use dateilager.Files.Writer.{Header, write_file}
use dateilager.Files.Mode.{write_file-mode}
use dateilager.Files.Content.{IsTruncating, write_file-content}

-- The state is the list of the paths at which something is in the way.
abbrev is_free : Bytes → List Bytes → Bool
is_free path obstacles = not (any (bytes_eq path) obstacles)

abbrev make : {A : Type 0} → A → Bytes → Fs (List Bytes) A
make a path obstacles =
    if any (bytes_eq path) obstacles then (err file_failed, obstacles) else (ok a, obstacles)

abbrev cleared : Bytes → List Bytes → List Bytes
cleared path obstacles = filter (λ p. not (bytes_eq path p)) obstacles

abbrev blocked_system : System (List Bytes) Bytes
blocked_system = record {
  join = λ a b. a ++ b'/' ∷ b;
  dir = λ path. codes "out";
  lstat = λ path d. err file_failed;
  stat_path = λ path d. err file_failed;
  is_writable = λ path d. true;
  read_file = λ path d. err file_failed;
  read_link = λ path d. err file_failed;
  create_new = λ path d. (ok tt, d);
  chmod_path = λ path mode d. (ok tt, d);
  remove = λ path d. (removed, d);
  remove_all = λ path d. (ok tt, cleared path d);
  mkdir = λ path mode. make tt path;
  mkdir_all = λ path mode. make tt path;
  mkdir_temp = λ path name d. (ok (path ++ name), d);
  symlink = λ old path. make tt path;
  link = λ old path. make tt path;
  rename = λ old path d. (ok tt, d);
  open_file = λ path mode. make path path;
  fallocate = λ file size d. (ok tt, d);
  write = λ file bytes d. (ok tt, d);
  stat = λ file d. ok 420;
  chmod = λ file mode d. (ok tt, d);
  close = λ file d. d;
  walk = λ root d. ([], ok tt);
}

-- A file below a path that is blocked.
abbrev first_header : Header
first_header = record {
  name = codes "a";
  type_flag = b'0';
  mode = 493;
  size = 1;
  link_name = [];
  content = ok (codes "x");
}

write_file-mode_example :
    write_file blocked_system (codes "out/a") first_header [] (codes "out/a" ∷ [])
    ≡ write_file
        (record blocked_system {
          stat = λ file d. err file_failed;
          chmod = λ file mode d. (err file_failed, d);
        })
        (codes "out/a")
        first_header
        []
        (codes "out/a" ∷ [])
unfolding any
write_file-mode_example =
    write_file-mode blocked_system (λ file d. err file_failed) (λ file mode d. (err file_failed, d))
      (codes "out/a") first_header [] (codes "out/a" ∷ []) refl

-- A file system of one file, which every path names; it starts with some content.
abbrev one_file_system : System Bytes (Unit {0})
one_file_system = record {
  join = λ a b. a ++ b'/' ∷ b;
  dir = λ path. codes "out";
  lstat = λ path d. ok 420;
  stat_path = λ path d. ok false;
  is_writable = λ path d. true;
  read_file = λ path d. ok d;
  read_link = λ path d. err file_failed;
  create_new = λ path d. (ok tt, d);
  chmod_path = λ path mode d. (ok tt, d);
  remove = λ path d. (removed, d);
  remove_all = λ path d. (ok tt, d);
  mkdir = λ path mode d. (ok tt, d);
  mkdir_all = λ path mode d. (ok tt, d);
  mkdir_temp = λ path name d. (ok name, d);
  symlink = λ old path d. (ok tt, d);
  link = λ old path d. (ok tt, d);
  rename = λ old path d. (ok tt, d);
  open_file = λ path mode d. (ok tt, []);
  fallocate = λ file size d. (ok tt, d);
  write = λ file bytes d. (ok tt, bytes ++ drop (length bytes) d);
  stat = λ file d. ok 420;
  chmod = λ file mode d. (ok tt, d);
  close = λ file d. d;
  walk = λ root d. ([], ok tt);
}

abbrev AlwaysOpen : Bytes → Unit {0} → ℕ → Bytes → Type 0
AlwaysOpen path file n d = Unit {0}

same_bytes : (a b : Bytes) → ok a ≡ ok b → a ≡ b
same_bytes a b e = cc e

one_file_system-IsTruncating : IsTruncating one_file_system AlwaysOpen
one_file_system-IsTruncating = record {
  opened = λ path mode d file h. (tt, refl);
  allocated = λ path file size n d old o r l.
      (tt, (d, refl, subst (λ x. length x ≤ size) (sym (same_bytes d old r)) l));
  written = λ path file bytes old d o r w.
      (tt, ap (λ x. ok (bytes ++ drop (length bytes) x)) (same_bytes d old r));
  changed = λ path file mode n d o. (tt, refl);
  closed = λ path file n d o. refl;
}

write_file-content_example : one_file_system.read_file (codes "out/a") (codes "x") ≡ ok (codes "x")
unfolding write_file dateilager.Files.System.◌>>=◌ dateilager.Files.Writer.ensure_dir
    dateilager.Files.Writer.retry_file_errors dateilager.Files.Writer.pre_allocate any bytes_eq
write_file-content_example =
    write_file-content one_file_system AlwaysOpen (codes "out/a") first_header (codes "x") []
      (codes "out" ∷ []) (codes "before") (codes "x") one_file_system-IsTruncating refl refl refl
