-- ===== src/Db/Query/Diff/Correct.antt =====
-- internal/db/queryBuilder.go: applying the objects of the built query to the tree at the start of
-- the range gives the tree at its end.
use dateilager.Prelude.{
  ◌≡◌, ◌≢◌, sym, ap, ◌∙◌, ◌⊎◌, inl, inr, true, false, none, some, List, ◌++◌, arith, ℤ, pos, ltb_ℤ,
  ◌≤ℤ◌, Bytes, bytes_eq, bytes_eq_iff, any, In, In-append, any→In, any-false, find-cases,
  none→any_false, Bool-cases, ends_with_slash, has_prefix, codes, if◌then◌else◌,
}
use dateilager.Db.Schema.{ObjectRow, Tables}
use dateilager.Db.Query.{DbObject, updated_object, removed_object, is_replaced, build}
use dateilager.Db.History.{is_visible, tree_at, tree_at-cases, tree_at-visible, OneLive}
use dateilager.Db.Query.Diff.{
  whole, object_entry, is_written, is_erased, apply_diff, is_below, is_covered,
}
use dateilager.Db.Query.Diff.Rows.{
  qb, updated, removed, visible_before, In-updated, updated-In, removed-In, build-whole,
  written-updated, erased-removed,
}

module _ (p from to : ℤ) (versions : List ℤ) (t : Tables) where
  abbrev objects : List DbObject
  objects = updated p from to versions t ++ removed p from to versions t

  module _ (one : OneLive p t.objects) (le : from ≤ℤ to) (path : Bytes) where
    after_written :
        (o : DbObject)
        → In o objects
        → is_written path o ≡ true
        → some (object_entry o) ≡ tree_at t.objects p to path
    unfolding updated_object
    after_written o m w =
        let (r, m', e, v, l, q) = written-updated p from to versions t path o m w in
        ap (λ x. some (object_entry x)) e ∙ sym (tree_at-visible t.objects p to path one r m' v q)

    -- Nothing is written at the path, and the directory rule does not apply to it.
    module _ (unwritten : (o : DbObject) → In o objects → is_written path o ≡ false)
        (uncovered : is_replaced (updated p from to versions t) path ≡ false) where
      visible_was_there :
          (r : ObjectRow)
          → In r t.objects
          → is_visible p to r ≡ true
          → r.path ≡ path
          → is_visible p from r ≡ true
      unfolding updated_object
      visible_was_there r m v e = elim (Bool-cases (ltb_ℤ from r.start_version)) [
        | inl s ↦
            let o = updated_object (qb p from to versions t) t.cache_versions r in
            let u = unwritten o (
              (In-append o (updated p from to versions t) (removed p from to versions t)).1
                (inl (updated-In p from to versions t r m v s))) in
            cc ((bytes_eq_iff r.path path).1 e, u)
        | inr s ↦ visible_before p from to versions r le v s
      ]

      after_erased : any (is_erased path) objects ≡ true → none ≡ tree_at t.objects p to path
      after_erased h =
          let (o, m, w) = any→In (is_erased path) objects h in
          let (r, m', v, l, q) = erased-removed p from to versions t path o m w in
          elim (tree_at-cases t.objects p to path) [
            | inl (n, _) ↦ sym n
            | inr (x, s, mx, vx, ex) ↦
                let same = one.same from x r mx m' (visible_was_there x mx vx ex) v (ex ∙ sym q) in
                cc (ap (is_visible p to) same, vx, l)
          ]

      still_visible :
          any (is_erased path) objects ≡ false
          → (r : ObjectRow) → In r t.objects
          → is_visible p from r ≡ true
          → r.path ≡ path
          → is_visible p to r ≡ true
      unfolding removed_object
      still_visible h r m v e = elim (Bool-cases (is_visible p to r)) [
        | inl k ↦ k
        | inr k ↦
            let d = removed-In p from to versions t le r m v k (rw e uncovered) in
            let i =
              (In-append (removed_object r) (updated p from to versions t)
                  (removed p from to versions t)).1
                (inr d) in
            cc (
              any-false (is_erased path) objects (removed_object r) h i,
              (bytes_eq_iff r.path path).1 e,
            )
      ]

      after_kept :
          any (is_erased path) objects ≡ false
          → tree_at t.objects p from path ≡ tree_at t.objects p to path
      after_kept h = elim (tree_at-cases t.objects p from path) [
        | inl (n, gone) ↦ elim (tree_at-cases t.objects p to path) [
          | inl (n', _) ↦ n ∙ sym n'
          | inr (x, s, mx, vx, ex) ↦ absurd (gone x mx (visible_was_there x mx vx ex) ex)
        ]
        | inr (r, s, m, v, e) ↦
            s ∙ sym (tree_at-visible t.objects p to path one r m (still_visible h r m v e) e)
      ]

    replaced_cases :
        is_replaced (updated p from to versions t) path ≡ true
        → (o : DbObject) × In o (updated p from to versions t)
          × ((bytes_eq o.path path ≡ true)
              ⊎ ((if ends_with_slash path
                    then has_prefix o.path path
                    else has_prefix o.path (path ++ codes "/"))
                  ≡ true))
    unfolding is_replaced
    replaced_cases h = elim (Bool-cases (ends_with_slash path)) [
      | inl e ↦
          let (o, m, w) =
            any→In (λ u. has_prefix u.path path) (updated p from to versions t) (ground arith) in
          (o, m, inr (rw e w))
      | inr e ↦ elim (Bool-cases (any (λ u. bytes_eq u.path path) (updated p from to versions t))) [
        | inl k ↦
            let (o, m, w) = any→In (λ u. bytes_eq u.path path) (updated p from to versions t) k in
            (o, m, inl w)
        | inr k ↦
            let (o, m, w) =
              any→In (λ u. has_prefix u.path (path ++ codes "/")) (updated p from to versions t)
                (ground arith) in
            (o, m, inr (rw e w))
      ]
    ]

    uncovered→unreplaced :
        ((o : DbObject) → In o objects → is_written path o ≡ false)
        → is_covered objects path ≡ false
        → is_replaced (updated p from to versions t) path ≡ false
    unfolding updated_object is_covered
    uncovered→unreplaced unwritten c =
        elim (Bool-cases (is_replaced (updated p from to versions t) path)) [
          | inr e ↦ e
          | inl e ↦
              let (o, m, w) = replaced_cases e in
              let (r, m', k, s, eq) = In-updated p from to versions t o m in
              let i =
                (In-append o (updated p from to versions t) (removed p from to versions t)).1
                  (inl m) in
              let none_written = none→any_false (is_written path) objects unwritten in
              let none_below : any (is_below path) objects ≡ false = ground arith in
              let kept : o.deleted ≡ false = ap (λ x. x.deleted) eq in
              let here = unwritten o i in
              let below = any-false (is_below path) objects o none_below i in ground arith
        ]

    apply_diff-updated :
        is_covered objects path ≡ false
        → apply_diff objects (tree_at t.objects p from) path ≡ tree_at t.objects p to path
    unfolding apply_diff
    apply_diff-updated c = elim (find-cases (is_written path) objects) [
      | inr (o, s, m, w) ↦ rw (s, apply_diff) (after_written o m w)
      | inl (n, unwritten) ↦
          let u = uncovered→unreplaced unwritten c in
          elim (Bool-cases (any (is_erased path) objects)) [
            | inl e ↦ rw (n, apply_diff) (rw (e, apply_diff) (after_erased unwritten u e))
            | inr e ↦ rw (n, apply_diff) (rw (e, apply_diff) (after_kept unwritten u e))
          ]
    ]

-- The objects that the server returns for the versions `from` to `to` of a project, without a path
-- to restrict them, take a copy of the tree at `from` to the tree at `to`, if `from` is not 0 and
-- not after `to`, at each path but those that are not written themselves and below which the objects
-- write. It holds in tables where no version of the project shows two rows at one path.
pub apply_diff-build :
    (p from to : ℤ) (versions : List ℤ) (t : Tables) (path : Bytes)
    → OneLive p t.objects
    → from ≢ pos 0
    → from ≤ℤ to
    → is_covered (build (whole p from to versions) t) path ≡ false
    → apply_diff (build (whole p from to versions) t) (tree_at t.objects p from) path
      ≡ tree_at t.objects p to path
apply_diff-build p from to versions t path one nz le c =
    let e = build-whole p from to versions t nz in
    rw e (apply_diff-updated p from to versions t one le path (rw e at c))
