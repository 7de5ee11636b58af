-- ===== src/Db/Reset/Rollback.antt =====
-- internal/db/reset.go, ResetProject: what a rollback keeps and what it forgets.
use dateilager.Prelude.{
  ◌≡◌, ◌≢◌, refl, sym, ap, ◌∙◌, true, false, not, none, List, arith, ℤ, eqb_ℤ, ◌≤ℤ◌, eqb_ℤ_iff,
  Bytes, bytes_eq, bytes_eq_iff, ◌⊎◌, filter, In, In-filter, Bool-cases, inl, inr, if◌then◌else◌,
}
use dateilager.Result.{ok}
use dateilager.Db.Schema.{ObjectRow, Tables, is_unique, clash, update_rows, checked}
use dateilager.Db.Schema.Unique.{clash_refl, clash_facts, is_unique-filter, is_unique-map}
use dateilager.Db.History.{is_visible, row_entry, tree_at, OneLive}
use dateilager.Db.History.Trees.{tree_at-filter, tree_at-map}
use dateilager.Db.Session.{calm, ◌>>=◌}
use dateilager.Db.Project.{set_versions, set_latest, delete_objects}
use dateilager.Db.Reset.{reset_project, set_rows, is_started_after, is_stopped_after, revive}

module _ (p v : ℤ) where
  -- The rows that a rollback to `v` leaves.
  unfoldable pub rolled_back : List ObjectRow → List ObjectRow
  unfolding update_rows
  rolled_back rows =
      update_rows (is_stopped_after p v) revive (filter (λ r. not (is_started_after p v r)) rows)

  abbrev revive_stopped : ObjectRow → ObjectRow
  revive_stopped r = if is_stopped_after p v r then revive r else r

  revived_visible :
      (r : ObjectRow)
      → is_started_after p v r ≡ false
      → eqb_ℤ r.project p ≡ true
      → (revive_stopped r).stop_version ≡ none
      → is_visible p v r ≡ true
  unfolding is_visible is_stopped_after is_started_after
  revived_visible r h e n = ground arith

  stopped_project : (r : ObjectRow) → is_stopped_after p v r ≡ true → eqb_ℤ r.project p ≡ true
  unfolding is_stopped_after
  stopped_project r h = ground arith

  same_project :
      (r q : ObjectRow)
      → eqb_ℤ r.project p ≡ true
      → eqb_ℤ r.project q.project ≡ true
      → eqb_ℤ q.project p ≡ true
  same_project r q h e = ground arith

  revive_keeps :
      (r : ObjectRow)
      → ((revive_stopped r).project ≡ r.project) × ((revive_stopped r).path ≡ r.path)
  revive_keeps r = ground arith

  both_visible :
      (r q : ObjectRow)
      → is_started_after p v r ≡ false
      → is_started_after p v q ≡ false
      → eqb_ℤ r.project p ≡ true
      → clash (revive_stopped r) (revive_stopped q) ≡ true
      → (revive_stopped r).stop_version ≡ none
      → (is_visible p v r ≡ true) × (is_visible p v q ≡ true) × (bytes_eq r.path q.path ≡ true)
  both_visible r q br bq pr c n =
      let f = clash_facts (revive_stopped r) (revive_stopped q) c in
      let (rp, rpath) = revive_keeps r in
      let (qp, qpath) = revive_keeps q in
      let e : eqb_ℤ r.project q.project ≡ true = rw (← rp, ← qp) f.0 in
      (
        revived_visible r br pr n,
        revived_visible q bq (same_project r q pr e) (f.2 n),
        rw (← rpath, ← qpath) f.1,
      )

  clash_cases :
      (r q : ObjectRow)
      → is_started_after p v r ≡ false
      → is_started_after p v q ≡ false
      → clash (revive_stopped r) (revive_stopped q) ≡ true
      → (clash r q ≡ true)
        ⊎ ((is_visible p v r ≡ true) × (is_visible p v q ≡ true) × (bytes_eq r.path q.path ≡ true))
  clash_cases r q br bq c = elim (Bool-cases (is_stopped_after p v r)) [
    | inl e ↦ inr (both_visible r q br bq (stopped_project r e) c (rw e refl))
    | inr e ↦ elim (Bool-cases (is_stopped_after p v q)) [
      | inr k ↦ inl (rw (e, k) at c)
      | inl k ↦
          let f = clash_facts (revive_stopped r) (revive_stopped q) c in
          let (rp, _) = revive_keeps r in
          let (qp, _) = revive_keeps q in
          let pq : eqb_ℤ q.project p ≡ true = stopped_project q k in
          let rq : eqb_ℤ r.project q.project ≡ true = rw (← rp, ← qp) f.0 in
          inr (both_visible r q br bq (ground arith) c (f.3 (rw k refl)))
    ]
  ]

  clash_revived :
      (rows : List ObjectRow)
      → OneLive p rows
      → (r q : ObjectRow) → In r rows
      → In q rows
      → is_started_after p v r ≡ false
      → is_started_after p v q ≡ false
      → clash (revive_stopped r) (revive_stopped q) ≡ true
      → clash r q ≡ true
  clash_revived rows one r q mr mq br bq c = elim (clash_cases r q br bq c) [
    | inl h ↦ h
    | inr (vr, vq, e) ↦
        let same = one.same v r q mr mq vr vq ((bytes_eq_iff r.path q.path).0 e) in
        ap (λ x. clash r x) (sym same) ∙ clash_refl r
  ]

  shown_revived :
      (w : ℤ) (r : ObjectRow) → w ≤ℤ v → is_visible p w (revive_stopped r) ≡ is_visible p w r
  unfolding is_visible is_stopped_after
  shown_revived w r le = ground arith

  shown_other :
      (q w : ℤ) (r : ObjectRow) → q ≢ p → is_visible q w (revive_stopped r) ≡ is_visible q w r
  unfolding is_visible is_stopped_after
  shown_other q w r ne = ground (arith, eqb_ℤ_iff q p, eqb_ℤ_iff r.project p, eqb_ℤ_iff r.project q)

  shown_later :
      (w : ℤ) (r : ObjectRow)
      → v ≤ℤ w
      → is_started_after p v r ≡ false
      → is_visible p w (revive_stopped r) ≡ is_visible p v r
  unfolding is_visible is_stopped_after is_started_after
  shown_later w r le h = ground arith

  module _ (rows : List ObjectRow) (one : OneLive p rows) where
    kept : List ObjectRow
    kept = filter (λ r. not (is_started_after p v r)) rows

    kept_facts : (r : ObjectRow) → In r kept → In r rows × (is_started_after p v r ≡ false)
    unfolding kept
    kept_facts r m =
        let (m', h) = (In-filter (λ r. not (is_started_after p v r)) r rows).0 m in
        (m', ground arith)

    -- The rollback breaks no unique index.
    rolled_back_unique : is_unique rows ≡ true → is_unique (rolled_back rows) ≡ true
    unfolding rolled_back kept
    rolled_back_unique u =
        is_unique-map revive_stopped kept
          (λ r q mr mq.
            let (ir, sr) = kept_facts r mr in
            let (iq, sq) = kept_facts q mq in clash_revived rows one r q ir iq sr sq)
          (is_unique-filter (λ r. not (is_started_after p v r)) rows u)

    visible_kept :
        (w : ℤ) (r : ObjectRow)
        → w ≤ℤ v
        → is_visible p w r ≡ true
        → not (is_started_after p v r) ≡ true
    unfolding is_visible is_started_after
    visible_kept w r le h = ground arith

    other_kept :
        (q w : ℤ) (r : ObjectRow)
        → q ≢ p
        → is_visible q w r ≡ true
        → not (is_started_after p v r) ≡ true
    unfolding is_visible is_started_after
    other_kept q w r ne h =
        ground (arith, eqb_ℤ_iff q p, eqb_ℤ_iff r.project p, eqb_ℤ_iff r.project q)

    entry_revived : (r : ObjectRow) → row_entry (revive_stopped r) ≡ row_entry r
    entry_revived r = ground arith

    path_revived : (r : ObjectRow) → (revive_stopped r).path ≡ r.path
    path_revived r = ground arith

    -- The versions up to the one rolled back to are as they were.
    pub tree_at-rolled_back :
        (w : ℤ) (path : Bytes)
        → w ≤ℤ v
        → tree_at (rolled_back rows) p w path ≡ tree_at rows p w path
    unfolding rolled_back kept
    tree_at-rolled_back w path le =
        tree_at-map p w path revive_stopped kept w entry_revived path_revived
          (λ r m. shown_revived w r le)
        ∙ tree_at-filter p w path (λ r. not (is_started_after p v r)) rows
            (λ r m h. visible_kept w r le h)

    -- From then on, every version is the one rolled back to.
    pub tree_at-rolled_back_later :
        (w : ℤ) (path : Bytes)
        → v ≤ℤ w
        → tree_at (rolled_back rows) p w path ≡ tree_at rows p v path
    unfolding rolled_back kept
    tree_at-rolled_back_later w path le =
        tree_at-map p w path revive_stopped kept v entry_revived path_revived
          (λ r m. shown_later w r le (kept_facts r m).1)
        ∙ tree_at-filter p v path (λ r. not (is_started_after p v r)) rows
            (λ r m h. visible_kept v r (omega arith) h)

    -- The other projects keep all versions.
    pub tree_at-rolled_back_other :
        (q w : ℤ) (path : Bytes)
        → q ≢ p
        → tree_at (rolled_back rows) q w path ≡ tree_at rows q w path
    unfolding rolled_back kept
    tree_at-rolled_back_other q w path ne =
        tree_at-map q w path revive_stopped kept w entry_revived path_revived
          (λ r m. shown_other q w r ne)
        ∙ tree_at-filter q w path (λ r. not (is_started_after p v r)) rows
            (λ r m h. other_kept q w r ne h)

-- The tables after a rollback of project `p` to version `v`.
unfoldable pub after_rollback : ℤ → ℤ → Tables → Tables
unfolding rolled_back
after_rollback p v t = record t {
  projects = set_versions p v t.projects;
  objects = rolled_back p v t.objects;
}

-- In tables with unique rows where no version of the project shows two rows at one path, and if no
-- statement fails, ResetProject succeeds, and the transaction sees the project at the version, its
-- later rows deleted and its rows that were stopped later live again.
pub reset_project-calm :
    (p v : ℤ) (t c : Tables)
    → OneLive p t.objects
    → is_unique t.objects ≡ true
    → reset_project p v (calm t c) ≡ (ok tt, calm (after_rollback p v t) c)
unfolding reset_project ◌>>=◌ set_latest delete_objects set_rows checked rolled_back is_unique
    after_rollback filter set_versions
reset_project-calm p v t c one u = rw (rolled_back_unique p v t.objects one u) refl
