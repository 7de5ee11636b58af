-- ===== src/Examples/Streams.antt =====
-- internal/db/query.go and pkg/api/fs.go on a file and a pack.
use dateilager.Prelude.{
  ◌≡◌, refl, sym, ◌∙◌, ap, find, bytes_eq, Bool, true, false, inl, inr, Option-cases, ◌<◌, some,
  List, [], ◌∷◌, map, filter, All, pos, Bytes, codes, arith, In, length,
}
use dateilager.Result.{ok, err, panic}
use dateilager.Codec.{TarEntry}
use dateilager.Db.Schema.{Hash, ContentRow, Tables}
use dateilager.Db.Session.{calm}
use dateilager.Db.Query.{DbObject, ObjectQuery, zero_hash}
use dateilager.Db.Content.{HashMap, get_hash, hex, lookup, decoded_if}
use dateilager.Db.Content.Sound.{stored, IsKeyed, IsSound, IsWanted}
use dateilager.Db.Content.Found.{lookup_lem}
use dateilager.Db.Content.Maps.{hex-inj, Unique}
use dateilager.Db.Stream.{unpack_objects}
use dateilager.Db.Tar.{object_from_tar_header}
use dateilager.Db.Stream.Tars.{tars_of, is_pack}
use dateilager.Db.Stream.Objects.{objects_of}
use dateilager.Db.Stream.Batches.{IsTaken}
use dateilager.Db.Stream.Received.{packs_of, entries_of, archived, IsBounded}
use dateilager.Db.Stream.Complete.{tars_of-read, tars_of-IsBounded}
use dateilager.Db.Stream.Unpacked.{flat, is_match, IsReadable, unpacked}
use dateilager.Db.Stream.Flat.{objects_of-flat, objects_of-panic}
use dateilager.Examples.{two_versions}
use dateilager.Examples.Archives.{
  lawful_codec, lawful_codec-IsLawful, keep_all, keep_all-IsCache, row_content,
  row_content-IsLoadable,
}

abbrev file_in_pack : TarEntry
file_in_pack = record {
  name = codes "p/x";
  mode = 420;
  type_flag = 48;
  link_name = [];
  content = codes "xs";
}

abbrev pack_bytes : Bytes
pack_bytes = lawful_codec.write_tar (file_in_pack ∷ [])

abbrev file_a : DbObject
file_a = record {
  hash = codes "ha";
  path = codes "a";
  mode = pos 420;
  size = pos 5;
  deleted = false;
  cached = false;
  packed = false;
}

abbrev pack_p : DbObject
pack_p = record file_a { hash = codes "hp"; path = codes "p/"; packed = true }

abbrev removed_pack : DbObject
removed_pack = record file_a { hash = zero_hash; path = codes "q/"; packed = true; deleted = true }

abbrev pub rows : List ContentRow
rows =
    record { hash = codes "ha"; bytes = codes "alpha" }
    ∷ record { hash = codes "hp"; bytes = pack_bytes }
    ∷ []

abbrev stored_tables : Tables
stored_tables = record two_versions { contents = rows }

abbrev pub both : List DbObject
both = file_a ∷ pack_p ∷ []

stored_ha : stored rows (codes "ha") ≡ some (codes "alpha")
unfolding stored find bytes_eq
stored_ha = refl

stored_hp : stored rows (codes "hp") ≡ some pack_bytes
unfolding stored find bytes_eq
stored_hp = refl

pub rows-IsKeyed : IsKeyed rows
rows-IsKeyed r (inl e) = ap (λ q. stored rows q.hash) e ∙ stored_ha ∙ ap (λ q. some q.bytes) (sym e)
rows-IsKeyed r (inr (inl e)) =
    ap (λ q. stored rows q.hash) e ∙ stored_hp ∙ ap (λ q. some q.bytes) (sym e)
rows-IsKeyed r (inr (inr n)) = absurd n

-- The cache has the file's content already.
abbrev pub warm : List (Bytes × Bytes)
warm = keep_all.set [] (hex (codes "ha")) (codes "alpha")

pub warm-IsSound : IsSound lawful_codec keep_all rows warm
warm-IsSound h v e =
    elim (keep_all-IsCache.get-set [] (hex (codes "ha")) (codes "alpha") (hex h) v e) [
      | inl (k, q) ↦ ap (stored rows) (hex-inj h (codes "ha") k) ∙ stored_ha ∙ ap some (sym q)
      | inr n ↦ absurd (cc n)
    ]

pub none_cached : (o : DbObject) → In o both → o.cached ≡ false
none_cached o (inl e) = ap (λ q. q.cached) e
none_cached o (inr (inl e)) = ap (λ q. q.cached) e
none_cached o (inr (inr n)) = absurd n

pub both-IsTaken : All (IsTaken lawful_codec (row_content rows)) both
both-IsTaken = (λ e. refl, (λ e. refl, tt))

tars_of-read_example :
    ((tars_of lawful_codec keep_all warm both (calm stored_tables two_versions)).0.outcome ≡ ok tt)
    × (packs_of (tars_of lawful_codec keep_all warm both (calm stored_tables two_versions)).0.sent
        ≡ map (λ o. (o.path, row_content rows o)) (filter is_pack both))
    × (entries_of lawful_codec
          (tars_of lawful_codec keep_all warm both (calm stored_tables two_versions)).0.sent
        ≡ ok (archived (row_content rows) both))
tars_of-read_example =
    tars_of-read lawful_codec keep_all stored_tables two_versions both (row_content rows) warm
      lawful_codec-IsLawful keep_all-IsCache rows-IsKeyed
      (row_content-IsLoadable rows both none_cached) warm-IsSound (omega arith, (omega arith, tt))
      both-IsTaken

tars_of-IsBounded_example :
    All
      (IsBounded lawful_codec)
      (tars_of lawful_codec keep_all warm both (calm stored_tables two_versions)).0.sent
tars_of-IsBounded_example =
    tars_of-IsBounded lawful_codec keep_all stored_tables two_versions both (row_content rows) warm
      lawful_codec-IsLawful keep_all-IsCache rows-IsKeyed
      (row_content-IsLoadable rows both none_cached) warm-IsSound (omega arith, (omega arith, tt))
      both-IsTaken

-- Both are looked up, the pack as it is stored.
abbrev wanted : HashMap Bool
wanted = (codes "ha", true) ∷ (codes "hp", false) ∷ []

wanted-Unique : Unique wanted
unfolding get_hash bytes_eq
wanted-Unique = (refl, (refl, tt))

wanted_all : IsWanted lawful_codec keep_all rows wanted (stored rows)
wanted_all hash b g = elim (Option-cases (stored rows hash)) [
  | inl e ↦ inl (e, e)
  | inr (bytes, e) ↦ inr (bytes, bytes, e, plain b bytes, e)
]
  where
    plain : (b : Bool) (bytes : Bytes) → decoded_if lawful_codec b bytes ≡ ok bytes
    plain true bytes = refl
    plain false bytes = refl

lookup_lem_example :
    (found : HashMap Bytes) × (s : List (Bytes × Bytes)) × (lookup lawful_codec keep_all warm wanted
        (calm stored_tables two_versions)
      ≡ ((s, ok found), calm stored_tables two_versions))
    × IsSound lawful_codec keep_all rows s
    × ((hash : Hash) (b : Bool)
        → get_hash hash wanted ≡ some b
        → get_hash hash found ≡ stored rows hash)
lookup_lem_example =
    lookup_lem lawful_codec keep_all stored_tables two_versions wanted (stored rows) warm
      keep_all-IsCache rows-IsKeyed wanted-Unique wanted_all warm-IsSound

abbrev under_p : ObjectQuery
under_p = record { path = codes "p/"; is_prefix = true; ignores = [] }

both-IsReadable : All (IsReadable lawful_codec (row_content rows)) both
unfolding stored find bytes_eq unpack_objects object_from_tar_header
both-IsReadable =
    ((refl, λ n. absurd (cc n)), ((refl, λ _. (object_from_tar_header file_in_pack, [], refl)), tt))

flat_short : length (flat lawful_codec (row_content rows) both) < 3
unfolding flat unpacked stored find bytes_eq unpack_objects
flat_short = omega arith

objects_of-flat_example :
    ((objects_of lawful_codec keep_all
        (codes "p/")
        under_p
        3
        warm
        both
        (calm stored_tables two_versions)).0.outcome
      ≡ ok tt)
    × ((objects_of lawful_codec keep_all
          (codes "p/")
          under_p
          3
          warm
          both
          (calm stored_tables two_versions)).0.sent
        ≡ filter (is_match (codes "p/") under_p) (flat lawful_codec (row_content rows) both))
    × IsSound lawful_codec keep_all rows
        (objects_of lawful_codec keep_all
          (codes "p/")
          under_p
          3
          warm
          both
          (calm stored_tables two_versions)).0.state
    × ((objects_of lawful_codec keep_all
          (codes "p/")
          under_p
          3
          warm
          both
          (calm stored_tables two_versions)).1
        ≡ calm stored_tables two_versions)
objects_of-flat_example =
    objects_of-flat lawful_codec keep_all (codes "p/") under_p stored_tables two_versions both
      (row_content rows) warm 3 keep_all-IsCache rows-IsKeyed
      (row_content-IsLoadable rows both none_cached) warm-IsSound both-IsReadable flat_short

-- The pack q/ was removed in the range.
abbrev with_removed : List DbObject
with_removed = file_a ∷ removed_pack ∷ []

none_cached_removed : (o : DbObject) → In o with_removed → o.cached ≡ false
none_cached_removed o (inl e) = ap (λ q. q.cached) e
none_cached_removed o (inr (inl e)) = ap (λ q. q.cached) e
none_cached_removed o (inr (inr n)) = absurd n

no_content : row_content rows removed_pack ≡ []
unfolding stored find bytes_eq
no_content = refl

file_short : length (flat lawful_codec (row_content rows) (file_a ∷ [])) < 3
unfolding flat unpacked
file_short = omega arith

objects_of-panic_example :
    ((objects_of lawful_codec keep_all [] under_p 3 warm with_removed
        (calm stored_tables two_versions)).0.outcome
      ≡ err panic)
    × ((objects_of lawful_codec keep_all [] under_p 3 warm with_removed
          (calm stored_tables two_versions)).0.sent
        ≡ filter (is_match [] under_p) (flat lawful_codec (row_content rows) (file_a ∷ [])))
objects_of-panic_example =
    objects_of-panic lawful_codec keep_all [] under_p stored_tables two_versions (file_a ∷ [])
      removed_pack [] (row_content rows) warm 3 lawful_codec-IsLawful keep_all-IsCache rows-IsKeyed
      (row_content-IsLoadable rows with_removed none_cached_removed) warm-IsSound
      (both-IsReadable.0, tt) refl refl no_content file_short
