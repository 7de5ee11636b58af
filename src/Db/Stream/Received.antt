-- ===== src/Db/Stream/Received.antt =====
-- What a client reads from the archives of GetTars.
use dateilager.Prelude.{
  ℕ, ◌+◌, ◌≤◌, ◌<◌, ◌≡◌, ◌≢◌, refl, ap, sym, ◌∙◌, true, false, not, Bool-cases, inl, inr, none,
  some, List, [], ◌∷◌, ◌++◌, Bytes, arith, length, map, filter, All, if◌then◌else◌, ltb,
  append_assoc, subst,
}
use dateilager.Result.{Result, ok, ◌>>=◌}
use dateilager.Codec.{TarEntry, Codec, IsLawful}
use dateilager.Db.Query.{DbObject}
use dateilager.Db.Tar.{TarWriter, new_tar_writer, add_entry, tar_entry}
use dateilager.Db.Stream.{to_tar_object, target_tar_size, row}
use dateilager.Db.Stream.Tars.{Tar, write_row, write_or_skip, is_pack, tar}
use dateilager.Db.Stream.Batches.{
  batches, last_tar, sent_before, entry_of, IsTaken, write_row-entry,
}

-- The packs among the responses, with their paths.
unfoldable pub packs_of : List Tar → List (Bytes × Bytes)
packs_of [] = []
packs_of (a ∷ rest) =
    let more = packs_of rest in
    elim a.pack_path [ none ↦ more | some path ↦ (path, a.bytes) ∷ more ]

abbrev joined : Result (List TarEntry) → Result (List TarEntry) → Result (List TarEntry)
joined first rest = do entries ← first; others ← rest; ok (entries ++ others)

-- The entries of the other responses, read one after another.
unfoldable pub entries_of : Codec → List Tar → Result (List TarEntry)
entries_of codec [] = ok []
entries_of codec (a ∷ rest) =
    let more = entries_of codec rest in
    elim a.pack_path [ none ↦ joined (codec.read_tar a.bytes) more | some _ ↦ more ]

-- The bytes that TarWriter counts for its entries.
unfoldable pub sizes : List TarEntry → ℕ
sizes [] = 0
sizes (e ∷ es) = (length e.content + length e.name) + sizes es

-- An archive that is at most as large as the target without its last entry.
abbrev pub IsBounded : Codec → Tar → Type 0
IsBounded codec a =
    a.pack_path ≡ none
    → (entries : List TarEntry) × (last : TarEntry) × (a.bytes
        ≡ codec.write_tar (entries ++ last ∷ []))
      × (sizes entries ≤ target_tar_size)

abbrev pub HasPath : DbObject → Type 0
HasPath o = 0 < length o.path

-- The entries of the objects that are not sent as packs.
unfoldable pub archived : (DbObject → Bytes) → List DbObject → List TarEntry
unfolding entry_of
archived content objects = map (entry_of content) (filter (λ o. not (is_pack o)) objects)

-- What holds of the writer between two objects.
abbrev pub IsWriter : TarWriter → Type 0
IsWriter w =
    (w.size ≡ sizes w.entries)
    × (w.size ≤ target_tar_size)
    × (All (λ e. 0 < length e.name) w.entries)

sizes-append : (xs ys : List TarEntry) → sizes (xs ++ ys) ≡ sizes xs + sizes ys
unfolding sizes
sizes-append [] ys = omega arith
sizes-append (x ∷ xs) ys = omega (arith, sizes-append xs ys)

All-snoc :
    (xs : List TarEntry) (e : TarEntry)
    → All (λ e. 0 < length e.name) xs
    → 0 < length e.name
    → All (λ e. 0 < length e.name) (xs ++ e ∷ [])
All-snoc [] e a h = (h, tt)
All-snoc (x ∷ xs) e a h = (a.0, All-snoc xs e a.1 h)

empty_writer :
    (entries : List TarEntry)
    → All (λ e. 0 < length e.name) entries
    → sizes entries ≡ 0
    → entries ≡ []
unfolding sizes
empty_writer [] a s = refl
empty_writer (e ∷ es) a s = let no : ⊥ = omega arith in absurd no

-- A writer that is not empty ends with an entry.
last_entry :
    (entries : List TarEntry)
    → entries ≢ []
    → (rest : List TarEntry) × (e : TarEntry) × (entries ≡ rest ++ e ∷ [])
last_entry [] n = absurd (n refl)
last_entry (e ∷ []) n = ([], e, refl)
last_entry (e ∷ f ∷ es) n =
    let (rest, last, q) = last_entry (f ∷ es) (λ k. cc k) in (e ∷ rest, last, ap (λ xs. e ∷ xs) q)

-- The archive of a writer's entries.
abbrev pub archive : Codec → TarWriter → Tar
archive codec w = record { bytes = codec.write_tar w.entries; pack_path = none }

-- The writer after an object.
unfoldable pub grown : (DbObject → Bytes) → DbObject → TarWriter → TarWriter
grown content o w = add_entry (to_tar_object o (content o)) w

module _ (codec : Codec) (content : DbObject → Bytes) where
  batches-pack :
      (o : DbObject) (os : List DbObject) (w : TarWriter)
      → is_pack o ≡ true
      → batches codec content w (o ∷ os)
        ≡ record { bytes = content o; pack_path = some o.path } ∷ batches codec content w os
  unfolding batches write_row
  batches-pack o os w e =
      let written : write_row codec (row o (content o)) w
          ≡ (tar (record { bytes = content o; pack_path = some o.path }), w) =
        rw (e, write_row) refl in
      ap (λ x. sent_before x.0 (batches codec content x.1 os)) written

  batches-entry :
      (o : DbObject) (os : List DbObject) (w : TarWriter)
      → is_pack o ≡ false
      → IsTaken codec content o
      → batches codec content w (o ∷ os) ≡ (
          let (n, w') = write_or_skip codec (grown content o w) in
          sent_before n (batches codec content w' os))
  unfolding batches grown
  batches-entry o os w e taken =
      ap (λ x. sent_before x.0 (batches codec content x.1 os))
        (write_row-entry codec content o w e taken)

  batches-full :
      (o : DbObject) (os : List DbObject) (w : TarWriter)
      → is_pack o ≡ false
      → IsTaken codec content o
      → ltb target_tar_size (grown content o w).size ≡ true
      → batches codec content w (o ∷ os)
        ≡ archive codec (grown content o w) ∷ batches codec content new_tar_writer os
  unfolding dateilager.Db.Tar.bytes_and_reset
  batches-full o os w e taken k = batches-entry o os w e taken ∙ rw (k, write_or_skip) refl

  batches-more :
      (o : DbObject) (os : List DbObject) (w : TarWriter)
      → is_pack o ≡ false
      → IsTaken codec content o
      → ltb target_tar_size (grown content o w).size ≡ false
      → batches codec content w (o ∷ os) ≡ batches codec content (grown content o w) os
  batches-more o os w e taken k = batches-entry o os w e taken ∙ rw (k, write_or_skip) refl

  grown-IsWriter :
      (o : DbObject) (w : TarWriter)
      → HasPath o
      → IsWriter w
      → ((grown content o w).entries ≡ w.entries ++ entry_of content o ∷ [])
        × ((grown content o w).size ≡ sizes (grown content o w).entries)
        × All (λ e. 0 < length e.name) (grown content o w).entries
  unfolding grown entry_of add_entry tar_entry to_tar_object sizes
  grown-IsWriter o w h i = (
    refl,
    (let z = sizes-append w.entries (entry_of content o ∷ []) in omega (arith, i.0)),
    All-snoc w.entries (entry_of content o) i.2 h,
  )

module _ (codec : Codec) (lawful : IsLawful codec) (content : DbObject → Bytes) where
  pub packs_of-batches :
      (objects : List DbObject) (w : TarWriter)
      → All (IsTaken codec content) objects
      → packs_of (batches codec content w objects)
        ≡ map (λ o. (o.path, content o)) (filter is_pack objects)
  unfolding packs_of batches filter
  packs_of-batches [] w taken = elim (Bool-cases (ltb 0 w.size)) [
    | inl e ↦ rw (e, batches, last_tar) refl
    | inr e ↦ rw (e, batches, last_tar) refl
  ]
  packs_of-batches (o ∷ os) w taken = elim (Bool-cases (is_pack o)) [
    | inl e ↦
        ap packs_of (batches-pack codec content o os w e)
        ∙ rw (e, filter) (ap (λ ps. (o.path, content o) ∷ ps) (packs_of-batches os w taken.1))
    | inr e ↦ elim (Bool-cases (ltb target_tar_size (grown content o w).size)) [
      | inl k ↦
          ap packs_of (batches-full codec content o os w e taken.0 k)
          ∙ packs_of-batches os new_tar_writer taken.1
          ∙ rw (e, filter) refl
      | inr k ↦
          ap packs_of (batches-more codec content o os w e taken.0 k)
          ∙ packs_of-batches os (grown content o w) taken.1
          ∙ rw (e, filter) refl
    ]
  ]

  archive-read :
      (w : TarWriter) (rest : List Tar) (entries : List TarEntry)
      → entries_of codec rest ≡ ok entries
      → entries_of codec (archive codec w ∷ rest) ≡ ok (w.entries ++ entries)
  unfolding entries_of
  archive-read w rest entries e = rw (lawful.read_tar-write_tar w.entries, e, entries_of) refl

  archived-pack :
      (o : DbObject) (os : List DbObject)
      → is_pack o ≡ true
      → archived content (o ∷ os) ≡ archived content os
  unfolding archived filter
  archived-pack o os e = rw (e, filter) refl

  archived-entry :
      (o : DbObject) (os : List DbObject)
      → is_pack o ≡ false
      → archived content (o ∷ os) ≡ entry_of content o ∷ archived content os
  unfolding archived filter
  archived-entry o os e =
      ap
        (λ b. map (entry_of content) (
          if not b then o ∷ filter (λ o. not (is_pack o)) os else filter (λ o. not (is_pack o)) os))
        e

  pub entries_of-batches :
      (objects : List DbObject) (w : TarWriter)
      → All HasPath objects
      → All (IsTaken codec content) objects
      → IsWriter w
      → (entries_of codec (batches codec content w objects)
          ≡ ok (w.entries ++ archived content objects))
        × All (IsBounded codec) (batches codec content w objects)
  unfolding entries_of batches archived sizes filter
  entries_of-batches [] w p taken i = elim (Bool-cases (ltb 0 w.size)) [
    | inl e ↦
        let some_left : w.entries ≢ [] = (λ n.
          let q : sizes w.entries ≡ 0 = rw (n, sizes) refl in
          let no : ⊥ = ground (arith, i.0) in no) in
        let (rest, last, q) = last_entry w.entries some_left in
        let less = sizes-append rest (last ∷ []) in
        let total : sizes w.entries ≡ sizes rest + sizes (last ∷ []) = ap sizes q ∙ less in
        rw (e, batches, last_tar)
          (
            archive-read w [] [] refl,
            (λ _. (rest, last, ap codec.write_tar q, omega (arith, i.0, i.1)), tt),
          )
    | inr e ↦
        let nothing_left = empty_writer w.entries i.2 (ground (arith, i.0)) in
        rw (e, batches, last_tar) (ap (λ es. ok (es ++ [])) (sym nothing_left), tt)
  ]
  entries_of-batches (o ∷ os) w p taken i = elim (Bool-cases (is_pack o)) [
    | inl e ↦
        let r = entries_of-batches os w p.1 taken.1 i in
        (
          ap (entries_of codec) (batches-pack codec content o os w e)
              ∙ r.0
              ∙ ap (λ es. ok (w.entries ++ es)) (sym (archived-pack o os e)),
          subst (All (IsBounded codec)) (sym (batches-pack codec content o os w e))
              ((λ n. cc n), r.1),
        )
    | inr e ↦
        let (grow, size, names) = grown-IsWriter codec content o w p.0 i in
        let same : (grown content o w).entries ++ archived content os
            ≡ w.entries ++ archived content (o ∷ os) =
          ap (λ es. es ++ archived content os) grow
          ∙ append_assoc w.entries (entry_of content o ∷ []) (archived content os)
          ∙ ap (λ es. w.entries ++ es) (sym (archived-entry o os e)) in
        elim (Bool-cases (ltb target_tar_size (grown content o w).size)) [
          | inl k ↦
              let r = entries_of-batches os new_tar_writer p.1 taken.1 ((refl, omega arith, tt)) in
              (
                ap (entries_of codec) (batches-full codec content o os w e taken.0 k)
                    ∙ archive-read (grown content o w) (batches codec content new_tar_writer os)
                        (archived content os) r.0
                    ∙ ap ok same,
                subst (All (IsBounded codec)) (sym (batches-full codec content o os w e taken.0 k))
                    (
                      λ _. (
                        w.entries,
                        entry_of content o,
                        ap codec.write_tar grow,
                        omega (arith, i.0, i.1),
                      ),
                      r.1,
                    ),
              )
          | inr k ↦
              let r =
                entries_of-batches os (grown content o w) p.1 taken.1 (size, ground arith, names) in
              (
                ap (entries_of codec) (batches-more codec content o os w e taken.0 k)
                    ∙ r.0
                    ∙ ap ok same,
                subst (All (IsBounded codec)) (sym (batches-more codec content o os w e taken.0 k))
                    r.1,
              )
        ]
  ]
