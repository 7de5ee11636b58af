-- ===== src/Db/History/Stops.antt =====
-- Stopping live rows of a project at its next version: what the trees show before and after.
pub mod Unique
use dateilager.Prelude.{
  ◌≡◌, ◌≢◌, refl, sym, ap, ◌∙◌, ◌⊎◌, inl, inr, Bool, true, false, not, ◌&&◌, Option, none, some,
  List, [], ◌∷◌, map, arith, ℤ, leb_ℤ, ltb_ℤ, eqb_ℤ, ◌≤ℤ◌, ◌<ℤ◌, eqb_ℤ_iff, Bytes, bytes_eq,
  bytes_eq_iff, In, In-map, Bool-cases, if◌then◌else◌,
}
use dateilager.Db.Schema.{ObjectRow, is_live, clash, is_unique, update_rows}
use dateilager.Db.Schema.Unique.{clash_refl, clash_facts, is_unique-map}
use dateilager.Db.History.{row_entry, is_visible, tree_at, tree_at-cases, tree_at-visible, OneLive}
use dateilager.Db.History.Trees.{tree_at-map}

-- A row is over after it began, and by `version`.
abbrev pub IsOrdered : ℤ → ObjectRow → Type 0
IsOrdered version r = elim r.stop_version [
  | none ↦ Unit
  | some stop ↦ (r.start_version <ℤ stop) × (stop ≤ℤ version)
]

-- The rows of project `p` while `version` is written or is the latest one.
pub record WellFormed (p version : ℤ) (rows : List ObjectRow) : Type 0 where
  pub started : (r : ObjectRow) → In r rows → eqb_ℤ r.project p ≡ true → r.start_version ≤ℤ version
  pub ordered : (r : ObjectRow) → In r rows → eqb_ℤ r.project p ≡ true → IsOrdered version r
  pub one : OneLive p rows

abbrev pub stop_row : ℤ → ObjectRow → ObjectRow
stop_row version r = record r { stop_version = some version }

-- The selection takes live rows of the project that did not begin at the version.
pub record Stoppable (p version : ℤ) (select : ObjectRow → Bool) : Type 0 where
  pub project : (r : ObjectRow) → select r ≡ true → eqb_ℤ r.project p ≡ true
  pub live : (r : ObjectRow) → select r ≡ true → r.stop_version ≡ none
  pub older : (r : ObjectRow) → select r ≡ true → eqb_ℤ r.start_version version ≡ false

module _ (p version : ℤ) (select : ObjectRow → Bool) (ok_select : Stoppable p version select) where
  abbrev pub stop_selected : ObjectRow → ObjectRow
  stop_selected r = if select r then stop_row version r else r

  pub entry_stopped : (r : ObjectRow) → row_entry (stop_selected r) ≡ row_entry r
  entry_stopped r = ground arith

  pub path_stopped : (r : ObjectRow) → (stop_selected r).path ≡ r.path
  path_stopped r = ground arith

  -- A version before shows the row as it did.
  pub shown_before :
      (q w : ℤ) (r : ObjectRow) → w <ℤ version → is_visible q w (stop_selected r) ≡ is_visible q w r
  unfolding is_visible
  shown_before q w r lt = elim (Bool-cases (select r)) [
    | inl e ↦ rw e (ground (arith, ok_select.live r e))
    | inr e ↦ rw e refl
  ]

  -- So does every version of another project.
  pub shown_elsewhere :
      (q w : ℤ) (r : ObjectRow) → q ≢ p → is_visible q w (stop_selected r) ≡ is_visible q w r
  unfolding is_visible
  shown_elsewhere q w r ne = elim (Bool-cases (select r)) [
    | inl e ↦
        let here = ok_select.project r e in
        rw e (ground (arith, eqb_ℤ_iff q p, eqb_ℤ_iff r.project p, eqb_ℤ_iff r.project q))
    | inr e ↦ rw e refl
  ]

  -- What shows after the stop showed before it.
  pub shown_shrinks :
      (w : ℤ) (r : ObjectRow) → is_visible p w (stop_selected r) ≡ true → is_visible p w r ≡ true
  unfolding is_visible
  shown_shrinks w r h = elim (Bool-cases (select r)) [
    | inl e ↦ let l = ok_select.live r e in let h' = rw e at h in ground arith
    | inr e ↦ rw e at h
  ]

  pub hidden_after :
      (r : ObjectRow) → select r ≡ true → is_visible p version (stop_selected r) ≡ false
  unfolding is_visible
  hidden_after r e = rw e (ground arith)

  module _ (rows : List ObjectRow) (wf : WellFormed p version rows) where
    abbrev pub stopped_rows : List ObjectRow
    stopped_rows = map stop_selected rows

    stopped_OneLive : OneLive p stopped_rows
    stopped_OneLive = record {
      same = λ w r' q' mr mq vr vq e.
          let (r, ir, er) = (In-map stop_selected r' rows).0 mr in
          let (q, iq, eq) = (In-map stop_selected q' rows).0 mq in
          let paths =
            sym (path_stopped r)
            ∙ sym (ap (λ x. x.path) er)
            ∙ e
            ∙ ap (λ x. x.path) eq
            ∙ path_stopped q in
          let same =
            wf.one.same w r q ir iq (shown_shrinks w r (rw er at vr))
              (shown_shrinks w q (rw eq at vq)) paths in
          er ∙ ap stop_selected same ∙ sym eq;
    }

    stopped-IsOrdered :
        (r : ObjectRow)
        → r.start_version ≤ℤ version
        → IsOrdered version r
        → IsOrdered version (stop_selected r)
    stopped-IsOrdered r s o = elim (Bool-cases (select r)) [
      | inl e ↦ let older = ok_select.older r e in rw e (ground arith, omega arith)
      | inr e ↦ rw e o
    ]

    stopped_started :
        (r : ObjectRow)
        → (eqb_ℤ (stop_selected r).project p ≡ eqb_ℤ r.project p)
          × ((stop_selected r).start_version ≡ r.start_version)
    stopped_started r = ground arith

    -- The rows stay well formed.
    pub stopped_WellFormed : WellFormed p version stopped_rows
    stopped_WellFormed = record {
      started = λ r' m e.
          let (r, i, er) = (In-map stop_selected r' rows).0 m in
          let (a, b) = stopped_started r in
          let here : eqb_ℤ r.project p ≡ true = sym a ∙ ap (λ x. eqb_ℤ x.project p) (sym er) ∙ e in
          rw (er, b) (wf.started r i here);
      ordered = λ r' m e.
          let (r, i, er) = (In-map stop_selected r' rows).0 m in
          let (a, b) = stopped_started r in
          let here : eqb_ℤ r.project p ≡ true = sym a ∙ ap (λ x. eqb_ℤ x.project p) (sym er) ∙ e in
          rw er (stopped-IsOrdered r (wf.started r i here) (wf.ordered r i here));
      one = stopped_OneLive;
    }

    -- All earlier versions are as they were.
    pub tree_at-stopped_before :
        (q w : ℤ) (path : Bytes)
        → w <ℤ version
        → tree_at stopped_rows q w path ≡ tree_at rows q w path
    tree_at-stopped_before q w path lt =
        tree_at-map q w path stop_selected rows w entry_stopped path_stopped
          λ r m. shown_before q w r lt

    pub tree_at-stopped_elsewhere :
        (q w : ℤ) (path : Bytes) → q ≢ p → tree_at stopped_rows q w path ≡ tree_at rows q w path
    tree_at-stopped_elsewhere q w path ne =
        tree_at-map q w path stop_selected rows w entry_stopped path_stopped
          λ r m. shown_elsewhere q w r ne

    -- A path with a selected row is gone at the version.
    pub tree_at-stopped :
        (r : ObjectRow) → In r rows → select r ≡ true → tree_at stopped_rows p version r.path ≡ none
    tree_at-stopped r m e = elim (tree_at-cases stopped_rows p version r.path) [
      | inl (n, _) ↦ n
      | inr (x, s, mx, vx, px) ↦
          let (q, i, eq) = (In-map stop_selected x rows).0 mx in
          let vq = rw eq at vx in
          let paths = sym (path_stopped q) ∙ ap (λ y. y.path) (sym eq) ∙ px in
          let shown : is_visible p version r ≡ true = shown_selected r m e in
          let same = wf.one.same version q r i m (shown_shrinks version q vq) shown paths in
          cc (hidden_after q (ap select same ∙ e), vq)
    ]
      where
        shown_selected :
            (r : ObjectRow) → In r rows → select r ≡ true → is_visible p version r ≡ true
        shown_selected r m e =
            let here = ok_select.project r e in
            let le = wf.started r m here in unfold is_visible in ground (arith, ok_select.live r e)

    -- The other paths hold what they held.
    pub tree_at-unstopped :
        (path : Bytes)
        → ((r : ObjectRow) → In r rows → r.path ≡ path → select r ≡ false)
        → tree_at stopped_rows p version path ≡ tree_at rows p version path
    tree_at-unstopped path h = elim (tree_at-cases rows p version path) [
      | inr (r, s, m, v, e) ↦
          let same : stop_selected r ≡ r = rw (h r m e) refl in
          let i = (In-map stop_selected r rows).1 (r, m, sym same) in
          tree_at-visible stopped_rows p version path stopped_OneLive r i v e ∙ sym s
      | inl (n, gone) ↦ elim (tree_at-cases stopped_rows p version path) [
        | inl (n', _) ↦ n' ∙ sym n
        | inr (x, s, mx, vx, ex) ↦
            let (q, i, eq) = (In-map stop_selected x rows).0 mx in
            let vq = shown_shrinks version q (rw eq at vx) in
            absurd (gone q i vq (sym (path_stopped q) ∙ ap (λ y. y.path) (sym eq) ∙ ex))
      ]
    ]
