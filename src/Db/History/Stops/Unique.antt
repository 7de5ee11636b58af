-- ===== src/Db/History/Stops/Unique.antt =====
-- Stopping live rows of a well-formed project breaks no unique index.
use dateilager.Prelude.{
  ◌≡◌, refl, sym, ap, ◌∙◌, inl, inr, Bool, true, Option, none, some, List, arith, ℤ, leb_ℤ, eqb_ℤ,
  ◌≤ℤ◌, ◌<ℤ◌, eqb_ℤ_iff, bytes_eq_iff, In, Bool-cases, if◌then◌else◌,
}
use dateilager.Db.Schema.{ObjectRow, clash, is_unique}
use dateilager.Db.Schema.Unique.{clash_refl, clash_facts, is_unique-map}
use dateilager.Db.History.{is_visible}
use dateilager.Db.History.Stops.{WellFormed, Stoppable, stop_row, stop_selected, stopped_rows}

abbrev value_or : ℤ → Option ℤ → ℤ
value_or d none = d
value_or d (some x) = x

clash_stops :
    (r q : ObjectRow) (v : ℤ)
    → clash r q ≡ true
    → (r.stop_version ≡ some v → q.stop_version ≡ some v)
      × (q.stop_version ≡ some v → r.stop_version ≡ some v)
unfolding clash
clash_stops r q v h = (
  λ e. ground (arith, eqb_ℤ_iff v (value_or v q.stop_version)),
  λ e. ground (arith, eqb_ℤ_iff (value_or v r.stop_version) v),
)

later : ℤ → ℤ → ℤ
later a b = if leb_ℤ a b then b else a

module _ (p version : ℤ) (select : ObjectRow → Bool) (ok_select : Stoppable p version select)
    (rows : List ObjectRow) (wf : WellFormed p version rows) where
  -- A selected row and one that is stopped at the version were both shown when the later began.
  both_shown :
      (r q : ObjectRow)
      → In r rows
      → In q rows
      → select r ≡ true
      → eqb_ℤ q.project p ≡ true
      → q.stop_version ≡ some version
      → (is_visible p (later r.start_version q.start_version) r ≡ true)
        × (is_visible p (later r.start_version q.start_version) q ≡ true)
  unfolding is_visible later
  both_shown r q mr mq e pq sq =
      let live = ok_select.live r e in
      let older = ok_select.older r e in
      let pr = ok_select.project r e in
      let begun = wf.started r mr pr in
      let over : (q.start_version <ℤ version) × (version ≤ℤ version) =
        rw sq at (wf.ordered q mq pq) in
      ground arith

  same_project :
      (r q : ObjectRow)
      → eqb_ℤ r.project p ≡ true
      → eqb_ℤ r.project q.project ≡ true
      → eqb_ℤ q.project p ≡ true
  same_project r q h e = ground arith

  one_selected :
      (r q : ObjectRow)
      → In r rows
      → In q rows
      → select r ≡ true
      → (q.stop_version ≡ some version) × (eqb_ℤ q.project p ≡ true) × (r.path ≡ q.path)
      → r ≡ q
  one_selected r q mr mq e (sq, pq, paths) =
      let (vr, vq) = both_shown r q mr mq e pq sq in
      wf.one.same (later r.start_version q.start_version) r q mr mq vr vq paths

  live_shown : (r : ObjectRow) → In r rows → select r ≡ true → is_visible p version r ≡ true
  unfolding is_visible
  live_shown r m e =
      let live = ok_select.live r e in
      let pr = ok_select.project r e in let begun = wf.started r m pr in ground arith

  clash_stopped :
      (r q : ObjectRow)
      → In r rows
      → In q rows
      → clash
          (stop_selected p version select ok_select r)
          (stop_selected p version select ok_select q)
        ≡ true
      → clash r q ≡ true
  clash_stopped r q mr mq c = elim (Bool-cases (select r)) [
    | inl e ↦ elim (Bool-cases (select q)) [
      | inl k ↦
          let f = clash_facts (stop_row version r) (stop_row version q) (rw (e, k) at c) in
          let paths = (bytes_eq_iff r.path q.path).0 f.1 in
          let same = wf.one.same version r q mr mq (live_shown r mr e) (live_shown q mq k) paths in
          ap (clash r) (sym same) ∙ clash_refl r
      | inr k ↦
          let c' : clash (stop_row version r) q ≡ true = rw (e, k) at c in
          let f = clash_facts (stop_row version r) q c' in
          let stop = (clash_stops (stop_row version r) q version c').0 refl in
          let pq = same_project r q (ok_select.project r e) f.0 in
          let same = one_selected r q mr mq e (stop, pq, (bytes_eq_iff r.path q.path).0 f.1) in
          ap (clash r) (sym same) ∙ clash_refl r
    ]
    | inr e ↦ elim (Bool-cases (select q)) [
      | inr k ↦ rw (e, k) at c
      | inl k ↦
          let c' : clash r (stop_row version q) ≡ true = rw (e, k) at c in
          let f = clash_facts r (stop_row version q) c' in
          let stop = (clash_stops r (stop_row version q) version c').1 refl in
          let pq : eqb_ℤ q.project p ≡ true = ok_select.project q k in
          let rq : eqb_ℤ r.project q.project ≡ true = f.0 in
          let same =
            one_selected q r mq mr k
              (stop, ground arith, sym ((bytes_eq_iff r.path q.path).0 f.1)) in
          ap (clash r) same ∙ clash_refl r
    ]
  ]

  pub stopped_unique :
      is_unique rows ≡ true → is_unique (stopped_rows p version select ok_select rows wf) ≡ true
  stopped_unique = is_unique-map (stop_selected p version select ok_select) rows clash_stopped
