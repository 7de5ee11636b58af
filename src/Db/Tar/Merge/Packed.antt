-- ===== src/Db/Tar/Merge/Packed.antt =====
-- internal/db/tar.go, updateObjects as a whole.
use dateilager.Prelude.{
  ◌+◌, ◌≤◌, ◌<◌, ◌≡◌, refl, sym, ◌∙◌, ap, true, false, some, List, [], ◌∷◌, ◌++◌, arith, Bytes,
  length, map, all, Bool-cases, if◌then◌else◌, inl, inr,
}
use mathlib.Core.List.{append_assoc, append-nil}
use dateilager.Result.{Result-cases, Result, ok, err, empty_pack, bad_entry, ◌>>=◌}
use dateilager.Codec.{TarEntry, Codec}
use dateilager.Db.Update.{Object}
use dateilager.Db.Tar.{
  TarWriter, new_tar_writer, write_object, uncached_tar_object, tar_entry, sort_updates, add_entry,
  finish_pack, update_objects,
}
use dateilager.Db.Tar.Merge.{merged, emit}
use dateilager.Db.Tar.Merge.Seen.{unseen}
use dateilager.Db.Tar.Merge.Walked.{walked_entries}

-- The archive of the objects, as entries of their headers and contents.
abbrev pub packed_entries : List Object → List TarEntry
packed_entries os = map (λ o. tar_entry (uncached_tar_object o)) os

-- No objects make no pack, and each entry has to be taken.
abbrev pub packed : Codec → List Object → Result Bytes
packed codec [] = err empty_pack
packed codec (o ∷ os) =
    if all codec.takes (packed_entries (o ∷ os))
    then ok (codec.write_tar (packed_entries (o ∷ os)))
    else err bad_entry

-- The archive of what was written before, and of these objects.
abbrev all_packed : Codec → List TarEntry → List Object → Result Bytes
all_packed codec entries os =
    if all codec.takes (packed_entries os)
    then ok (codec.write_tar (entries ++ packed_entries os))
    else err bad_entry

finish_pack-emit :
    (codec : Codec) (os : List Object) (w : TarWriter)
    → finish_pack codec (emit codec os false w) ≡ all_packed codec w.entries os
unfolding finish_pack emit write_object add_entry all
finish_pack-emit codec [] w =
    ap (λ entries. ok (codec.write_tar entries)) (sym (append-nil w.entries))
finish_pack-emit codec (o ∷ os) w =
    let entry = tar_entry (uncached_tar_object o) in
    elim (Bool-cases (codec.takes entry)) [
      | inr e ↦ rw e refl
      | inl e ↦ rw e (
          finish_pack-emit codec os (add_entry (uncached_tar_object o) w)
          ∙ ap
              (λ entries.
                if all codec.takes (packed_entries os)
                then ok (codec.write_tar entries)
                else err bad_entry)
              (append_assoc w.entries (entry ∷ []) (packed_entries os)))
    ]

finish_pack-all :
    (codec : Codec) (os : List Object)
    → finish_pack codec (emit codec os true new_tar_writer) ≡ packed codec os
unfolding finish_pack emit write_object
finish_pack-all codec [] = refl
finish_pack-all codec (o ∷ os) = finish_pack-emit codec (o ∷ os) new_tar_writer

unseen_bound : (seen : List Bytes) (os : List Object) → unseen seen os ≤ length os
unseen_bound seen [] = omega arith
unseen_bound seen (o ∷ os) = ground (arith, unseen_bound seen os)

-- updateObjects always ends, and it gives the pack of the merged objects: each entry of the old pack is
-- kept, dropped or replaced in its place by the first update of its path, then the first updates of
-- other paths follow, the deleted ones left out. First and order are those in which sort.Slice puts
-- the updates, whatever it does with equal paths. It fails exactly if the old pack does not read, if
-- nothing is left, or if the archive does not take the entry of an object that is left.
pub update_objects_lem :
    (codec : Codec) (before : Bytes) (updates : List Object)
    → update_objects codec before updates
      ≡ some (
          codec.read_tar before >>= λ entries.
          packed codec (merged entries (sort_updates codec updates)))
unfolding update_objects merged
update_objects_lem codec before updates = elim (Result-cases (codec.read_tar before)) [
  | inr (e, r) ↦ rw (r, update_objects) refl
  | inl (entries, r) ↦
      let updates' = sort_updates codec updates in
      let enough : length entries + unseen [] updates' + 1 < length entries + length updates' + 2 =
        omega (arith, unseen_bound [] updates') in
      let run =
        walked_entries codec updates' entries (length entries + length updates' + 2) [] true
          new_tar_writer enough in
      rw (r, update_objects)
        (rw (run, update_objects) (ap some (finish_pack-all codec (merged entries updates'))))
]
