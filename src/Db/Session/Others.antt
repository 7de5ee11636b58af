-- ===== src/Db/Session/Others.antt =====
-- internal/db: calls that touch the objects of one project only, whatever fails.
use dateilager.Prelude.{
  ◌≡◌, refl, ◌∙◌, inl, inr, Bool, true, false, not, List, [], ◌∷◌, arith, ℤ, eqb_ℤ, eqb_ℤ_iff,
  filter, Bool-cases, if◌then◌else◌,
}
use dateilager.Result.{Error, Result, ok, err}
use dateilager.Db.Schema.{ObjectRow, Tables, update_rows, checked, is_unique}
use dateilager.Db.Session.{
  Session, Tx, Statement, pure, raise, lift, exec, has_row, pass_over, exec_outside, connect,
  commit, catch, close, continue, on_view, on_both, unless_fault, ◌>>=◌,
}
use dateilager.Db.Reset.{set_rows}

-- The rows of all projects but one.
unfoldable pub others : ℤ → List ObjectRow → List ObjectRow
others p rows = filter (λ r. not (eqb_ℤ r.project p)) rows

module _ (p : ℤ) where
  pub others-cons :
      (r : ObjectRow) (rows : List ObjectRow) → r.project ≡ p → others p (r ∷ rows) ≡ others p rows
  unfolding others filter
  others-cons r rows e = ground (arith, eqb_ℤ_iff r.project p)

  pub others-update_rows :
      (select : ObjectRow → Bool) (f : ObjectRow → ObjectRow) (rows : List ObjectRow)
      → ((r : ObjectRow) → select r ≡ true → eqb_ℤ r.project p ≡ true)
      → ((r : ObjectRow) → (f r).project ≡ r.project)
      → others p (update_rows select f rows) ≡ others p rows
  unfolding others update_rows filter
  others-update_rows select f [] h k = refl
  others-update_rows select f (r ∷ rows) h k =
      let rest = others-update_rows select f rows h k in
      elim (Bool-cases (select r)) [
        | inl e ↦ rw e (ground (arith, h r e, k r, rest))
        | inr e ↦ rw e (ground (arith, rest))
      ]

  abbrev pub Left {ℓ} : {A : Type ℓ} → Result (A × Tables) → Tables → Type 0
  Left (ok (a, t')) t = others p t'.objects ≡ others p t.objects
  Left (err e) t = Unit

  -- A statement that leaves the other rows.
  abbrev pub Leaves {ℓ} : {A : Type ℓ} → Statement A → Type 0
  Leaves f = (t : Tables) → Left (f t) t

  pub set_rows-Leaves :
      (select : ObjectRow → Bool) (f : ObjectRow → ObjectRow)
      → ((r : ObjectRow) → select r ≡ true → eqb_ℤ r.project p ≡ true)
      → ((r : ObjectRow) → (f r).project ≡ r.project)
      → Leaves (set_rows select f)
  unfolding set_rows checked
  set_rows-Leaves select f h k t = elim (Bool-cases (is_unique (update_rows select f t.objects))) [
    | inl u ↦ rw (u, Left, set_rows, checked) (others-update_rows select f t.objects h k)
    | inr u ↦ rw (u, Left, set_rows, checked) tt
  ]

  module _ (rows : List ObjectRow) where
    -- The transaction and the durable tables have these rows of the other projects.
    abbrev pub Within : Session → Type 0
    Within s = (others p s.view.objects ≡ rows) × (others p s.committed.objects ≡ rows)

    abbrev pub Stays {ℓ} : {A : Type ℓ} → Tx A → Type 0
    Stays m = (s : Session) → Within s → Within (m s).1

    module _ {ℓ} {A : Type ℓ} where
      faulty :
          (run : Session → Result A × Session)
          → ((s : Session) → Within s → Within (run s).1)
          → (faults : List Bool) (s : Session) → Within s
          → Within (unless_fault run faults s).1
      faulty run k [] s h = k s h
      faulty run k (true ∷ rest) s h = h
      faulty run k (false ∷ rest) s h = k (record s { faults = rest }) h

      viewed :
          (r : Result (A × Tables)) (s : Session)
          → Left r s.view
          → Within s
          → Within (on_view r s).1
      viewed (ok (a, t)) s l h = (l ∙ h.0, h.1)
      viewed (err e) s l h = h

      both :
          (r q : Result (A × Tables)) (s : Session)
          → Left r s.committed
          → Left q s.view
          → Within s
          → Within (on_both r q s).1
      both (ok (a, t)) (ok (b, v)) s l k h = (k ∙ h.0, l ∙ h.1)
      both (ok (a, t)) (err e) s l k h = h
      both (err e) q s l k h = h

      pub Stays-exec : (f : Statement A) → Leaves f → Stays (exec f)
      unfolding exec
      Stays-exec f l s h = faulty _ (λ t. viewed (f t.view) t (l t.view)) s.faults s h

      pub Stays-exec_outside : (f : Statement A) → Leaves f → Stays (exec_outside f)
      unfolding exec_outside
      Stays-exec_outside f l s h =
          faulty _ (λ t. both (f t.committed) (f t.view) t (l t.committed) (l t.view)) s.faults s h

    passed_over : (x : Result Bool × Session) → Within x.1 → Within (pass_over x).1
    passed_over (ok found, s) h = h
    passed_over (err e, s) h = faulty (λ t. (ok false, t)) (λ t k. k) s.faults s h

    pub Stays-has_row : (f : Statement Bool) → Leaves f → Stays (has_row f)
    unfolding has_row
    Stays-has_row f l s h = passed_over (exec f s) (Stays-exec f l s h)

    pub Stays-connect : Stays connect
    unfolding connect
    Stays-connect s h = ground arith

    pub Stays-commit : Stays commit
    unfolding commit
    Stays-commit s h = ground arith

    module _ {ℓ κ} {A : Type ℓ} {B : Type κ} where
      continued :
          (next : A → Tx B) (r : Result A) (s : Session)
          → ((a : A) → r ≡ ok a → Stays (next a))
          → Within s
          → Within (continue r next s).1
      continued next (ok a) s k h = k a refl s h
      continued next (err e) s k h = h

      pub Stays->>= :
          (m : Tx A) (next : A → Tx B)
          → Stays m
          → ((a : A) (s : Session) → (m s).0 ≡ ok a → Stays (next a))
          → Stays (m >>= next)
      unfolding ◌>>=◌
      Stays->>= m next k l s h = continued next (m s).0 (m s).1 (λ a e. l a s e) (k s h)

    module _ {ℓ} {A : Type ℓ} where
      pub Stays-pure : (a : A) → Stays (pure a)
      unfolding pure
      Stays-pure a s h = h

      pub Stays-lift : (r : Result A) → Stays (lift r)
      unfolding lift
      Stays-lift r s h = h

      pub Stays-catch : (f : Error → Error) (m : Tx A) → Stays m → Stays (catch f m)
      unfolding catch
      Stays-catch f m k s h = k s h

      pub Stays-close : (m : Tx A) → Stays m → Stays (close m)
      unfolding close
      Stays-close m k s h = let after = k s h in (after.1, after.1)

      pub Stays-if : (m n : Tx A) (c : Bool) → Stays m → Stays n → Stays (if c then m else n)
      Stays-if m n true k l = k
      Stays-if m n false k l = l

    pub Stays-raise {ℓ} : (A : Type ℓ) (e : Error) → Stays {A = A} (raise e)
    unfolding raise
    Stays-raise A e s h = h
