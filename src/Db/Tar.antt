-- ===== src/Db/Tar.antt =====
-- internal/db/tar.go and internal/pb/fs.go: packs, which are compressed archives of many objects.
--
-- The closures of updateObjects are a step function on an explicit state. An archive that does not
-- read counts as read first, so its error comes before that of an entry that is not taken.
pub mod Merge
use dateilager.Prelude.{
  ℕ, zero, suc, ◌+◌, ◌-◌, ◌/◌, ◌%◌, ◌^◌, Bool, true, false, ◌&&◌, ◌||◌, Option, none, some, List,
  [], ◌∷◌, ◌++◌, ℤ, pos, negsuc, ◌==◌, ltb, Bytes, bytes_eq, any, find, length, take, drop, map,
  if◌then◌else◌,
}
use dateilager.Result.{Error, empty_pack, bad_entry, Result, ok, err}
use dateilager.Codec.{TarEntry, Codec}
use dateilager.Db.Update.{Object}

-- pb.TarDeleted, pb.TarCached, and the flags of archive/tar
abbrev pub tar_deleted : ℕ
tar_deleted = b'D'

abbrev pub tar_cached : ℕ
tar_cached = b'C'

abbrev pub type_reg : ℕ
type_reg = b'0'

abbrev pub type_symlink : ℕ
type_symlink = b'2'

abbrev pub type_dir : ℕ
type_dir = b'5'

-- fs.FileMode(mode): the low 32 bits of an int64
unfoldable pub file_mode : ℤ → ℕ
file_mode (pos n) = n % 2 ^ 32
file_mode (negsuc n) = 2 ^ 32 - 1 - n % 2 ^ 32

abbrev pub has_bit : ℕ → ℕ → Bool
has_bit k m = (m / 2 ^ k) % 2 == 1

-- m | 1 << k
abbrev pub set_bit : ℕ → ℕ → ℕ
set_bit k m = if has_bit k m then m else m + 2 ^ k

-- TarTypeFromMode: fs.ModeDir is bit 31, fs.ModeSymlink bit 27
unfoldable pub tar_type_from_mode : ℕ → ℕ
tar_type_from_mode mode =
    if has_bit 31 mode then type_dir else if has_bit 27 mode then type_symlink else type_reg

-- TarObject, without its size and packed flag, which nothing reads
pub record TarObject : Type 0 where
  pub path : Bytes
  pub mode : ℤ
  pub deleted : Bool
  pub cached : Bool
  pub content : Bytes

-- TarType
unfoldable pub tar_type : TarObject → ℕ
unfolding tar_type_from_mode file_mode
tar_type o =
    if o.deleted
    then tar_deleted
    else if o.cached
    then tar_cached
    else tar_type_from_mode (file_mode o.mode)

-- TarWriter, with the entries that its buffer encodes
pub record TarWriter : Type 0 where
  pub size : ℕ
  pub entries : List TarEntry

abbrev pub new_tar_writer : TarWriter
new_tar_writer = record { size = 0; entries = [] }

-- Directories and symbolic links carry no content.
abbrev pub is_bodyless : ℕ → Bool
is_bodyless type_flag = type_flag == type_dir || type_flag == type_symlink

-- The header and the content that WriteObject writes.
unfoldable pub tar_entry : TarObject → TarEntry
unfolding tar_type file_mode
tar_entry o =
    let type_flag = tar_type o in
    record {
      name = o.path;
      mode = file_mode o.mode % 512;
      type_flag = type_flag;
      link_name = if type_flag == type_symlink then o.content else [];
      content = if is_bodyless type_flag then [] else o.content;
    }

-- The writer after an object.
unfoldable pub add_entry : TarObject → TarWriter → TarWriter
unfolding tar_entry
add_entry o w =
    let entry = tar_entry o in
    record {
      size = w.size + (length entry.content + length o.path);
      entries = w.entries ++ entry ∷ [];
    }

-- WriteObject
unfoldable pub write_object : Codec → TarObject → TarWriter → Result TarWriter
unfolding add_entry
write_object codec o w = if codec.takes (tar_entry o) then ok (add_entry o w) else err bad_entry

-- BytesAndReset
unfoldable pub bytes_and_reset : Codec → TarWriter → Bytes × TarWriter
bytes_and_reset codec w = (codec.write_tar w.entries, new_tar_writer)

-- ObjectFromTarHeader
unfoldable pub object_from_tar_header : TarEntry → Object
object_from_tar_header e =
    if e.type_flag == type_dir
    then record {
      path = e.name;
      mode = pos (set_bit 31 e.mode);
      size = pos 0;
      deleted = false;
      content = e.content;
    }
    else if e.type_flag == type_symlink
    then record {
      path = e.name;
      mode = pos (set_bit 27 e.mode);
      size = pos (length e.link_name);
      deleted = false;
      content = e.link_name;
    }
    else record {
      path = e.name;
      mode = pos e.mode;
      size = pos (length e.content);
      deleted = false;
      content = e.content;
    }

-- NewUncachedTarObject
unfoldable pub uncached_tar_object : Object → TarObject
uncached_tar_object o = record {
  path = o.path;
  mode = o.mode;
  deleted = o.deleted;
  cached = false;
  content = o.content;
}

-- What an object stream returns: an object, or the errors SKIP, io.EOF and others.
pub data Next : Type 0 where
  object : Object → Next
  skip end_of_stream : Next
  failed : Error → Next

-- findUpdate
unfoldable pub find_update : List Object → Bytes → Option Object
find_update updates path = find (λ o. bytes_eq path o.path) updates

-- The items at these places.
abbrev pub at_places : {A : Type 0} → List A → List ℕ → List A
at_places items [] = []
at_places items (n ∷ places) = take 1 (drop n items) ++ at_places items places

-- sort.Slice by path
unfoldable pub sort_updates : Codec → List Object → List Object
sort_updates codec updates = at_places updates (codec.sort_order (map (λ o. o.path) updates))

-- The variables that the stream of updateObjects closes over.
pub record Walk : Type 0 where
  pub updates : List Object
  pub seen_paths : List Bytes
  pub idx_hint : ℕ
  -- the entries that the reader has not returned, and readerObjectsRemaining
  pub entries : List TarEntry
  pub remaining : Bool

abbrev pub has_seen : List Bytes → Object → Bool
has_seen seen o = any (bytes_eq o.path) seen

-- The first update of updates[idxHint:] that was not seen, with its index in that slice.
unfoldable pub first_unseen : List Bytes → ℕ → List Object → Option (ℕ × Object)
first_unseen seen idx [] = none
first_unseen seen idx (o ∷ os) =
    let rest = first_unseen seen (suc idx) os in if has_seen seen o then rest else some (idx, o)

-- The body of the stream after the reader's end.
unfoldable pub next_update : Walk → Next × Walk
unfolding first_unseen
next_update s = elim (first_unseen s.seen_paths 0 (drop s.idx_hint s.updates)) [
  | none ↦ (end_of_stream, s)
  | some (idx, o) ↦ (
    if o.deleted then skip else object o,
    record s { seen_paths = o.path ∷ s.seen_paths; idx_hint = idx },
  )
]

abbrev pub replace_entry : Option Object → TarEntry → Next
replace_entry none e = object (object_from_tar_header e)
replace_entry (some update) e = if update.deleted then skip else object update

-- The body of the stream while the reader has entries.
unfoldable pub next_entry : List TarEntry → Walk → Next × Walk
unfolding find_update
next_entry [] s = (skip, record s { remaining = false })
next_entry (e ∷ es) s = (
  replace_entry (find_update s.updates e.name) e,
  record s { seen_paths = e.name ∷ s.seen_paths; entries = es },
)

-- The stream of updateObjects.
unfoldable pub next_object : Walk → Next × Walk
unfolding next_update next_entry
next_object s = if s.remaining then next_entry s.entries s else next_update s

-- The loop of packObjects over a stream with the given state, on fuel; `none` means that the fuel
-- ran out.
unfoldable pub pack_loop {ℓ} :
    {S : Type ℓ}
    → Codec
    → ℕ
    → (S → Next × S)
    → S
    → Bool
    → TarWriter
    → Option (Result (Bool × TarWriter))
unfolding write_object
pack_loop codec zero objects s is_empty w = none
pack_loop codec (suc fuel) objects s is_empty w =
    let (next, s') = objects s in
    elim next [
      | skip ↦ pack_loop codec fuel objects s' is_empty w
      | end_of_stream ↦ some (ok (is_empty, w))
      | failed e ↦ some (err e)
      | object o ↦ elim (write_object codec (uncached_tar_object o) w) [
        | ok w' ↦ pack_loop codec fuel objects s' false w'
        | err e ↦ some (err e)
      ]
    ]

-- packObjects after its loop
unfoldable pub finish_pack : Codec → Result (Bool × TarWriter) → Result Bytes
unfolding bytes_and_reset
finish_pack codec (err e) = err e
finish_pack codec (ok (true, w)) = err empty_pack
finish_pack codec (ok (false, w)) = ok (bytes_and_reset codec w).0

-- updateObjects. Each turn of the loop reads an entry, ends the reader, or sees one more update.
unfoldable pub update_objects : Codec → Bytes → List Object → Option (Result Bytes)
unfolding next_object finish_pack sort_updates
update_objects codec before updates = elim (codec.read_tar before) [
  | err e ↦ some (err e)
  | ok entries ↦
      let sorted = sort_updates codec updates in
      let start : Walk = record {
        updates = sorted;
        seen_paths = [];
        idx_hint = 0;
        entries = entries;
        remaining = true;
      } in
      let fuel = length entries + length sorted + 2 in
      elim (pack_loop codec fuel next_object start true new_tar_writer) [
        | none ↦ none
        | some r ↦ some (finish_pack codec r)
      ]
]
