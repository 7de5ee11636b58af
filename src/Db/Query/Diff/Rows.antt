-- ===== src/Db/Query/Diff/Rows.antt =====
-- internal/db/queryBuilder.go: from which rows the objects of the built query come, and which rows
-- give an object.
use dateilager.Prelude.{
  ◌≡◌, ◌≢◌, refl, sym, ap, ◌∙◌, inl, inr, true, false, List, ◌++◌, arith, ℤ, pos, ltb_ℤ, eqb_ℤ,
  ◌≤ℤ◌, eqb_ℤ_iff, Bytes, bytes_eq, bytes_eq_iff, all, In, In-append, Bool-cases,
}
use dateilager.Db.Schema.{ObjectRow, Tables}
use dateilager.Db.Query.{
  QueryBuilder, DbObject, is_added, is_possible, possible_objects, is_updated, updated_object,
  updated_objects, is_removed, removed_object, removed_objects, is_replaced, build,
  query_with_removals,
}
use dateilager.Db.Query.Members.{FromRow, In-selected}
use dateilager.Db.History.{is_visible}
use dateilager.Db.Query.Diff.{whole, is_written, is_erased}

module _ (p from to : ℤ) (versions : List ℤ) (r : ObjectRow) where
  pub updated_facts :
      is_updated (whole p from to versions) r ≡ true
      → (is_visible p to r ≡ true) × (ltb_ℤ from r.start_version ≡ true)
  unfolding is_updated is_visible is_added bytes_eq
  updated_facts h = ground arith

  pub updated_of_visible :
      is_visible p to r ≡ true
      → ltb_ℤ from r.start_version ≡ true
      → (is_possible (whole p from to versions) true r ≡ true)
        × (is_updated (whole p from to versions) r ≡ true)
  unfolding is_updated is_visible is_possible is_added bytes_eq all
  updated_of_visible h k = ground arith

  pub visible_before :
      from ≤ℤ to
      → is_visible p to r ≡ true
      → ltb_ℤ from r.start_version ≡ false
      → is_visible p from r ≡ true
  unfolding is_visible
  visible_before le h k = ground arith

  module _ (updated : List DbObject) where
    pub removed_facts :
        is_removed (whole p from to versions) updated r ≡ true
        → (is_visible p from r ≡ true) × (is_visible p to r ≡ false)
    unfolding is_visible is_removed
    removed_facts h = ground arith

    pub removed_of_visible :
        from ≤ℤ to
        → is_visible p from r ≡ true
        → is_visible p to r ≡ false
        → is_replaced updated r.path ≡ false
        → (is_possible (whole p from to versions) true r ≡ true)
          × (is_removed (whole p from to versions) updated r ≡ true)
    unfolding is_visible is_removed is_possible is_added all
    removed_of_visible le h k n = ground arith

module _ (p from to : ℤ) (versions : List ℤ) (t : Tables) where
  abbrev pub qb : QueryBuilder
  qb = whole p from to versions

  abbrev pub updated : List DbObject
  updated = updated_objects qb t.cache_versions (possible_objects qb true t.objects)

  abbrev pub removed : List DbObject
  removed = removed_objects qb updated (possible_objects qb true t.objects)

  pub In-updated :
      (o : DbObject)
      → In o updated
      → FromRow
          (is_possible qb true)
          (is_updated qb)
          (updated_object qb t.cache_versions)
          t.objects
          o
  unfolding updated_objects possible_objects
  In-updated o m = (In-selected _ _ _ t.objects o).0 m

  pub updated-In :
      (r : ObjectRow)
      → In r t.objects
      → is_visible p to r ≡ true
      → ltb_ℤ from r.start_version ≡ true
      → In (updated_object qb t.cache_versions r) updated
  unfolding updated_objects possible_objects
  updated-In r m v s =
      let (a, b) = updated_of_visible p from to versions r v s in
      (In-selected _ _ _ t.objects _).1 (r, m, a, b, refl)

  pub In-removed :
      (o : DbObject)
      → In o removed
      → FromRow (is_possible qb true) (is_removed qb updated) removed_object t.objects o
  unfolding removed_objects possible_objects
  In-removed o m = (In-selected _ _ _ t.objects o).0 m

  pub removed-In :
      from ≤ℤ to
      → (r : ObjectRow) → In r t.objects
      → is_visible p from r ≡ true
      → is_visible p to r ≡ false
      → is_replaced updated r.path ≡ false
      → In (removed_object r) removed
  unfolding removed_objects possible_objects
  removed-In le r m v n c =
      let (a, b) = removed_of_visible p from to versions r updated le v n c in
      (In-selected _ _ _ t.objects _).1 (r, m, a, b, refl)

  pub build-whole : from ≢ pos 0 → build qb t ≡ updated ++ removed
  unfolding build query_with_removals
  build-whole nz = elim (Bool-cases (eqb_ℤ from (pos 0))) [
    | inl e ↦ absurd (nz ((eqb_ℤ_iff from (pos 0)).0 e))
    | inr e ↦ rw e refl
  ]

  pub written-updated :
      (path : Bytes) (o : DbObject)
      → In o (updated ++ removed)
      → is_written path o ≡ true
      → (r : ObjectRow) × In r t.objects
        × (o ≡ updated_object qb t.cache_versions r)
        × (is_visible p to r ≡ true)
        × (ltb_ℤ from r.start_version ≡ true)
        × (r.path ≡ path)
  unfolding updated_object removed_object
  written-updated path o m w = elim ((In-append o updated removed).0 m) [
    | inl u ↦
        let (r, m', k, s, e) = In-updated o u in
        let (v, l) = updated_facts p from to versions r s in
        (r, m', e, v, l, ap (λ x. x.path) (sym e) ∙ (bytes_eq_iff o.path path).0 (ground arith))
    | inr d ↦ let (r, m', k, s, e) = In-removed o d in cc (ap (is_written path) e, w)
  ]

  pub erased-removed :
      (path : Bytes) (o : DbObject)
      → In o (updated ++ removed)
      → is_erased path o ≡ true
      → (r : ObjectRow) × In r t.objects
        × (is_visible p from r ≡ true)
        × (is_visible p to r ≡ false)
        × (r.path ≡ path)
  unfolding updated_object removed_object
  erased-removed path o m w = elim ((In-append o updated removed).0 m) [
    | inl u ↦ let (r, m', k, s, e) = In-updated o u in cc (ap (is_erased path) e, w)
    | inr d ↦
        let (r, m', k, s, e) = In-removed o d in
        let (v, l) = removed_facts p from to versions r updated s in
        (r, m', v, l, ap (λ x. x.path) (sym e) ∙ (bytes_eq_iff o.path path).0 (ground arith))
  ]
