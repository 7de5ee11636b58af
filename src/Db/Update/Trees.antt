-- ===== src/Db/Update/Trees.antt =====
-- internal/db/update.go, UpdateObject: the trees after it, whether it changed the rows or not.
use mathlib.Core.Option
use dateilager.Prelude.{
  subst, sym, ◌⊎◌, inl, inr, ◌≡◌, ◌≢◌, refl, sym, ap, ◌∙◌, ◌⊎◌, inl, inr, true, false, arith, none,
  some, List, ℤ, eqb_ℤ, eqb_ℤ_iff, ◌<ℤ◌, Bytes, bytes_eq, bytes_eq_iff, any, any→In, Bool-cases,
}
use dateilager.Codec.{Codec}
use dateilager.Db.Schema.{Hash, ObjectRow, Tables, clash, is_unique}
use dateilager.Db.Schema.Unique.{clash_facts}
use dateilager.Db.Session.{calm}
use dateilager.Db.History.{Entry, is_visible, tree_at, tree_at-visible}
use dateilager.Db.History.Stops.{WellFormed}
use dateilager.Db.Update.{Object, previous_paths, new_row, update_object}
use dateilager.Db.Update.Replace.{
  replaced, tree_at-replaced_before, tree_at-replaced_elsewhere, tree_at-replaced_other,
}
use dateilager.Db.Update.Placed.{Fresh, replaced-WellFormed, tree_at-replaced, replaced_unique}
use dateilager.Db.Update.Calm.{after_update, update_object-calm}

module _ (codec : Codec) (p version : ℤ) (object : Object) (v c : Tables) where
  -- The rows that the transaction sees after UpdateObject, when no statement fails.
  abbrev pub updated_rows : List ObjectRow
  updated_rows = (update_object codec p version object (calm v c)).1.view.objects

  -- The next version of the project is written to well-formed unique rows, and no row of the
  -- object's path begins with it.
  pub record IsReady : Type 0 where
    pub well_formed : WellFormed p version v.objects
    pub unique : is_unique v.objects ≡ true
    pub fresh : Fresh p version v.objects object.path

abbrev pub content_of : Entry → Hash × ℤ
content_of e = (e.hash, e.mode)

module _ (codec : Codec) (p version : ℤ) (object : Object) (v c : Tables)
    (ready : IsReady codec p version object v c) where
  rows_cases :
      ((any (clash (new_row codec p version object)) v.objects ≡ true)
        × (updated_rows codec p version object v c ≡ v.objects))
      ⊎ ((any (clash (new_row codec p version object)) v.objects ≡ false)
          × (updated_rows codec p version object v c ≡ replaced codec p version object v.objects))
  unfolding after_update
  rows_cases =
      let e =
        update_object-calm codec p version object v c ready.well_formed ready.unique ready.fresh in
      elim (Bool-cases (any (clash (new_row codec p version object)) v.objects)) [
        | inl k ↦ inl (k, ap (λ x. x.1.view.objects) e ∙ rw k refl)
        | inr k ↦ inr (k, ap (λ x. x.1.view.objects) e ∙ rw k refl)
      ]

  -- A live row with the object's path, hash and mode shows them.
  identical_shown :
      any (clash (new_row codec p version object)) v.objects ≡ true
      → Option.map content_of (tree_at v.objects p version object.path)
        ≡ some (codec.hash_content object.content, object.mode)
  unfolding new_row clash is_visible
  identical_shown h =
      let (r, m, k) = any→In (clash (new_row codec p version object)) v.objects h in
      let f = clash_facts (new_row codec p version object) r k in
      let live : r.stop_version ≡ none = f.2 refl in
      let here : eqb_ℤ r.project p ≡ true = ground (arith, eqb_ℤ_iff p r.project) in
      let path : r.path ≡ object.path = sym ((bytes_eq_iff object.path r.path).0 f.1) in
      let shown : is_visible p version r ≡ true =
        ground (arith, ready.well_formed.started r m here) in
      let same = rw live at k in
      let hash : codec.hash_content object.content ≡ r.hash =
        (bytes_eq_iff (codec.hash_content object.content) r.hash).0 (ground arith) in
      let mode : object.mode ≡ r.mode = (eqb_ℤ_iff object.mode r.mode).0 (ground arith) in
      rw (tree_at-visible v.objects p version object.path ready.well_formed.one r m shown path)
        (cc (hash, mode))

  -- After UpdateObject on a ready project, the object's path holds the hash of the object's content
  -- and the object's mode at the new version.
  pub update_object-path :
      Option.map content_of
        (tree_at (updated_rows codec p version object v c) p version object.path)
      ≡ some (codec.hash_content object.content, object.mode)
  unfolding new_row
  update_object-path = elim rows_cases [
    | inl (k, e) ↦ rw e (identical_shown k)
    | inr (k, e) ↦
        rw e (
          rw (tree_at-replaced codec p version object v.objects ready.well_formed ready.fresh) refl)
  ]

  -- UpdateObject on a ready project leaves all versions before the new one as they were.
  update_object-before :
      (q w : ℤ) (path : Bytes)
      → w <ℤ version
      → tree_at (updated_rows codec p version object v c) q w path ≡ tree_at v.objects q w path
  update_object-before q w path lt = elim rows_cases [
    | inl (k, e) ↦ rw e refl
    | inr (k, e) ↦
        rw e
          (tree_at-replaced_before codec p version object v.objects ready.well_formed q w path lt)
  ]

  -- UpdateObject on a ready project leaves all versions of the other projects as they were.
  update_object-elsewhere :
      (q w : ℤ) (path : Bytes)
      → q ≢ p
      → tree_at (updated_rows codec p version object v c) q w path ≡ tree_at v.objects q w path
  update_object-elsewhere q w path ne = elim rows_cases [
    | inl (k, e) ↦ rw e refl
    | inr (k, e) ↦
        rw e (
          tree_at-replaced_elsewhere codec p version object v.objects ready.well_formed q w path ne)
  ]

  -- UpdateObject on a ready project leaves the new version as it was at each path that is neither
  -- the object's nor a directory above it.
  update_object-other_path :
      (path : Bytes)
      → any (bytes_eq path) (previous_paths object.path) ≡ false
      → tree_at (updated_rows codec p version object v c) p version path
        ≡ tree_at v.objects p version path
  update_object-other_path path h = elim rows_cases [
    | inl (k, e) ↦ rw e refl
    | inr (k, e) ↦
        rw e (tree_at-replaced_other codec p version object v.objects ready.well_formed path h)
  ]

  -- UpdateObject on a ready project keeps the rows well-formed and unique.
  pub update_object-invariant :
      WellFormed p version (updated_rows codec p version object v c)
      × (is_unique (updated_rows codec p version object v c) ≡ true)
  update_object-invariant = elim rows_cases [
    | inl (k, e) ↦ rw e (ready.well_formed, ready.unique)
    | inr (k, e) ↦ rw e (
      replaced-WellFormed codec p version object v.objects ready.well_formed ready.fresh,
      replaced_unique codec p version object v.objects ready.well_formed ready.fresh ready.unique k,
    )
  ]

  -- UpdateObject on a ready project leaves unchanged what each version before the new one shows, what
  -- each version of another project shows, and what the new version shows at each path that is
  -- neither the object's nor a directory above it.
  pub update_object-apart :
      (q w : ℤ) (path : Bytes)
      → (w <ℤ version)
        ⊎ ((q ≢ p)
            ⊎ ((q ≡ p)
                × (w ≡ version)
                × (any (bytes_eq path) (previous_paths object.path) ≡ false)))
      → tree_at (updated_rows codec p version object v c) q w path ≡ tree_at v.objects q w path
  update_object-apart q w path (inl lt) = update_object-before q w path lt
  update_object-apart q w path (inr (inl ne)) = update_object-elsewhere q w path ne
  update_object-apart q w path (inr (inr (e, k, h))) =
      subst
        (λ x.
          tree_at (updated_rows codec p version object v c) x w path ≡ tree_at v.objects x w path)
        (sym e)
        (subst
          (λ x.
            tree_at (updated_rows codec p version object v c) p x path ≡ tree_at v.objects p x path)
          (sym k) (update_object-other_path path h))
