-- ===== src/Db/Update/Replace.antt =====
-- internal/db/update.go, UpdateObject: the row of an object is inserted, and the rows that it replaces are
-- stopped.
use dateilager.Prelude.{
  ◌≡◌, ◌≢◌, refl, sym, ◌∙◌, inl, inr, Bool, true, false, some, List, ◌∷◌, arith, ℤ, leb_ℤ, ◌<ℤ◌,
  eqb_ℤ_iff, Bytes, bytes_eq, bytes_eq_iff, any, Bool-cases,
}
use dateilager.Codec.{Codec}
use dateilager.Db.Schema.{ObjectRow, update_rows}
use dateilager.Db.History.{is_visible, tree_at}
use dateilager.Db.History.Trees.{tree_at-hidden, tree_at-other_path}
use dateilager.Db.History.Stops.{
  WellFormed, Stoppable, stopped_rows, tree_at-stopped_before, tree_at-stopped_elsewhere,
  tree_at-unstopped,
}
use dateilager.Db.Update.{Object, previous_paths, is_previous, new_row}

module _ (codec : Codec) (p version : ℤ) (object : Object) where
  abbrev pub previous : ObjectRow → Bool
  previous = is_previous p version (previous_paths object.path)

  pub previous-Stoppable : Stoppable p version previous
  unfolding is_previous
  previous-Stoppable = record {
    project = λ r h. ground arith;
    live = λ r h. ground arith;
    older = λ r h. ground arith;
  }

  abbrev pub row : ObjectRow
  row = new_row codec p version object

  -- The rows after the object was inserted.
  unfoldable pub replaced : List ObjectRow → List ObjectRow
  unfolding update_rows
  replaced rows = row ∷ update_rows previous (λ r. record r { stop_version = some version }) rows

  pub in_previous :
      (path : Bytes) → path ≡ object.path → any (bytes_eq path) (previous_paths object.path) ≡ true
  unfolding any previous_paths
  in_previous path e = ground (arith, (bytes_eq_iff path object.path).1 e)

  module _ (rows : List ObjectRow) (wf : WellFormed p version rows) where
    abbrev pub stopped : List ObjectRow
    stopped = stopped_rows p version previous previous-Stoppable rows wf

    pub replaced-stopped : replaced rows ≡ row ∷ stopped
    unfolding replaced
    replaced-stopped = refl

    pub row_visible : (w : ℤ) → is_visible p w row ≡ leb_ℤ version w
    unfolding is_visible new_row
    row_visible w = ground arith

    row_hidden_elsewhere : (q w : ℤ) → q ≢ p → is_visible q w row ≡ false
    unfolding is_visible new_row
    row_hidden_elsewhere q w ne = ground (arith, eqb_ℤ_iff p q)

    -- Earlier versions are immutable.
    pub tree_at-replaced_before :
        (q w : ℤ) (path : Bytes)
        → w <ℤ version
        → tree_at (replaced rows) q w path ≡ tree_at rows q w path
    unfolding replaced is_visible new_row
    tree_at-replaced_before q w path lt =
        tree_at-hidden q w path row stopped (ground arith)
        ∙ tree_at-stopped_before p version previous previous-Stoppable rows wf q w path lt

    pub tree_at-replaced_elsewhere :
        (q w : ℤ) (path : Bytes) → q ≢ p → tree_at (replaced rows) q w path ≡ tree_at rows q w path
    unfolding replaced
    tree_at-replaced_elsewhere q w path ne =
        tree_at-hidden q w path row stopped (row_hidden_elsewhere q w ne)
        ∙ tree_at-stopped_elsewhere p version previous previous-Stoppable rows wf q w path ne

    row_elsewhere :
        (path : Bytes)
        → any (bytes_eq path) (previous_paths object.path) ≡ false
        → bytes_eq row.path path ≡ false
    unfolding new_row
    row_elsewhere path h = elim (Bool-cases (bytes_eq object.path path)) [
      | inr e ↦ e
      | inl e ↦ cc (in_previous path (sym ((bytes_eq_iff object.path path).0 e)), h)
    ]

    -- Paths that are neither the object's nor above it hold what they held.
    pub tree_at-replaced_other :
        (path : Bytes)
        → any (bytes_eq path) (previous_paths object.path) ≡ false
        → tree_at (replaced rows) p version path ≡ tree_at rows p version path
    unfolding replaced
    tree_at-replaced_other path h =
        tree_at-other_path p version path row stopped (row_elsewhere path h)
        ∙ tree_at-unstopped p version previous previous-Stoppable rows wf path
            λ r m e. unfold is_previous in rw e (ground arith)
