-- ===== src/Db/Update/Placed.antt =====
-- internal/db/update.go, UpdateObject: the trees after an object of an update stream was inserted, in a
-- well-formed project whose next version did not begin with a row at the object's path.
use dateilager.Prelude.{
  ◌≡◌, refl, sym, ap, ◌∙◌, inl, inr, Bool, true, false, some, List, ◌∷◌, arith, ℤ, eqb_ℤ, ◌≤ℤ◌,
  ◌<ℤ◌, Bytes, any, In, In-map, any-false, none→any_false, Bool-cases, Option-cases,
}
use dateilager.Codec.{Codec}
use dateilager.Db.Schema.{ObjectRow, clash, is_unique}
use dateilager.Db.Schema.Unique.{clash_facts}
use dateilager.Db.History.{row_entry, is_visible, tree_at, tree_at-visible}
use dateilager.Db.History.Stops.{
  IsOrdered, WellFormed, stop_selected, stopped_WellFormed, path_stopped,
}
use dateilager.Db.History.Stops.Unique.{stopped_unique}
use dateilager.Db.Update.{Object, is_previous, new_row}
use dateilager.Db.Update.Replace.{previous-Stoppable, replaced, replaced-stopped, in_previous}
use dateilager.Db.Update.Replace

-- No row of the project at the path begins at the version.
pub record Fresh (p version : ℤ) (rows : List ObjectRow) (path : Bytes) : Type 0 where
  pub no_start :
      (r : ObjectRow)
      → In r rows
      → eqb_ℤ r.project p ≡ true
      → r.path ≡ path
      → eqb_ℤ r.start_version version ≡ false

module _ (codec : Codec) (p version : ℤ) (object : Object) where
  abbrev previous : ObjectRow → Bool
  previous = Replace.previous codec p version object

  abbrev row : ObjectRow
  row = Replace.row codec p version object

  module _ (rows : List ObjectRow) (wf : WellFormed p version rows)
      (fresh : Fresh p version rows object.path) where
    abbrev stopped : List ObjectRow
    stopped = Replace.stopped codec p version object rows wf

    not_previous :
        (r : ObjectRow)
        → In r rows
        → r.path ≡ object.path
        → eqb_ℤ r.project p ≡ true
        → previous r ≡ false
        → (stop : ℤ) × (r.stop_version ≡ some stop)
    unfolding is_previous
    not_previous r m e here h =
        let begun = fresh.no_start r m here e in
        let above = in_previous codec p version object r.path e in
        elim (Option-cases r.stop_version) [
          | inr (stop, s) ↦ (stop, s)
          | inl live ↦ cc (rw (above, begun, live) at h)
        ]

    -- No row that was there shows the path from the version on.
    old_hidden :
        (w : ℤ) (r : ObjectRow)
        → In r rows
        → r.path ≡ object.path
        → version ≤ℤ w
        → is_visible p w
            (stop_selected p version previous (previous-Stoppable codec p version object) r)
          ≡ false
    unfolding is_visible
    old_hidden w r m e le = elim (Bool-cases (eqb_ℤ r.project p)) [
      | inr other ↦ elim (Bool-cases (previous r)) [
        | inl k ↦ cc (other, (previous-Stoppable codec p version object).project r k)
        | inr k ↦ rw k (rw other refl)
      ]
      | inl here ↦ elim (Bool-cases (previous r)) [
        | inl k ↦ rw k (ground arith)
        | inr k ↦
            let (stop, s) = not_previous r m e here k in
            let over : (r.start_version <ℤ stop) × (stop ≤ℤ version) =
              rw s at (wf.ordered r m here) in
            rw k (ground arith)
      ]
    ]

    old_gone :
        (w : ℤ) (x : ObjectRow)
        → In x stopped
        → x.path ≡ object.path
        → version ≤ℤ w
        → is_visible p w x ≡ true
        → ⊥
    old_gone w x m e le v =
        let (r, i, er) = (In-map _ x rows).0 m in
        let paths =
          sym (path_stopped p version previous (previous-Stoppable codec p version object) r)
          ∙ ap (λ y. y.path) (sym er)
          ∙ e in
        cc (old_hidden w r i paths le, ap (is_visible p w) er, v)

    row_path : row.path ≡ object.path
    unfolding new_row
    row_path = refl

    replaced_one :
        (w : ℤ) (a b : ObjectRow)
        → In a (row ∷ stopped)
        → In b (row ∷ stopped)
        → is_visible p w a ≡ true
        → is_visible p w b ≡ true
        → a.path ≡ b.path
        → a ≡ b
    replaced_one w a b (inl ea) (inl eb) va vb e = ea ∙ sym eb
    replaced_one w a b (inl ea) (inr mb) va vb e =
        let shown =
          sym (Replace.row_visible codec p version object rows wf w)
          ∙ ap (is_visible p w) (sym ea)
          ∙ va in
        absurd (old_gone w b mb (sym e ∙ ap (λ x. x.path) ea ∙ row_path) (ground arith) vb)
    replaced_one w a b (inr ma) (inl eb) va vb e =
        let shown =
          sym (Replace.row_visible codec p version object rows wf w)
          ∙ ap (is_visible p w) (sym eb)
          ∙ vb in
        absurd (old_gone w a ma (e ∙ ap (λ x. x.path) eb ∙ row_path) (ground arith) va)
    replaced_one w a b (inr ma) (inr mb) va vb e =
        (stopped_WellFormed p version previous (previous-Stoppable codec p version object) rows
            wf).one.same
          w a b ma mb va vb e

    replaced_started :
        (r : ObjectRow)
        → In r (row ∷ stopped)
        → eqb_ℤ r.project p ≡ true
        → r.start_version ≤ℤ version
    unfolding new_row
    replaced_started r (inl e) h = rw e (omega arith)
    replaced_started r (inr m) h =
        (stopped_WellFormed p version previous (previous-Stoppable codec p version object) rows
            wf).started
          r m h

    replaced-IsOrdered :
        (r : ObjectRow) → In r (row ∷ stopped) → eqb_ℤ r.project p ≡ true → IsOrdered version r
    unfolding new_row
    replaced-IsOrdered r (inl e) h = rw e tt
    replaced-IsOrdered r (inr m) h =
        (stopped_WellFormed p version previous (previous-Stoppable codec p version object) rows
            wf).ordered
          r m h

    pub replaced-WellFormed : WellFormed p version (replaced codec p version object rows)
    unfolding replaced
    replaced-WellFormed = record {
      started = replaced_started;
      ordered = replaced-IsOrdered;
      one = record { same = replaced_one };
    }

    -- The object's path holds the object.
    pub tree_at-replaced :
        tree_at (replaced codec p version object rows) p version object.path ≡ some (row_entry row)
    unfolding replaced
    tree_at-replaced =
        tree_at-visible (replaced codec p version object rows) p version object.path
          replaced-WellFormed.one row (inl refl)
          (Replace.row_visible codec p version object rows wf version ∙ ground arith) row_path

    row_apart : any (clash row) rows ≡ false → (x : ObjectRow) → In x stopped → clash row x ≡ false
    unfolding new_row
    row_apart apart x m =
        let (r, i, er) = (In-map _ x rows).0 m in
        elim (Bool-cases (previous r)) [
          | inr k ↦ rw (er, k) (any-false (clash row) rows r apart i)
          | inl k ↦ elim (Bool-cases (clash row x)) [
            | inr c ↦ c
            | inl c ↦ cc ((clash_facts row x c).2 refl, ap (λ y. y.stop_version) er, k)
          ]
        ]

    -- The rows keep the unique indexes.
    pub replaced_unique :
        is_unique rows ≡ true
        → any (clash row) rows ≡ false
        → is_unique (replaced codec p version object rows) ≡ true
    unfolding replaced is_unique
    replaced_unique u apart =
        rw (none→any_false (clash row) stopped (row_apart apart))
          (stopped_unique p version previous (previous-Stoppable codec p version object) rows wf u)
