-- ===== src/Db/Session.antt =====
-- internal/db/db.go: a connection with one transaction (DbConnector, pgx.Tx).
--
-- `view` is what the transaction sees, `committed` what is durable. `faults` is the environment:
-- each statement, connection and commit takes one entry and fails if it is `true`; past the end of
-- the list nothing fails. PostgreSQL refuses all statements of a transaction after a failed one; that
-- is a list in which they fail, and the lists in which they do not are more than there is.
pub mod Keeps
pub mod Others
use dateilager.Prelude.{◌≡◌, refl, Bool, false, List, [], ◌∷◌, if◌then◌else◌}
use dateilager.Result.{Error, query_failed, Result, ok, err}
use dateilager.Db.Schema.{Tables}

pub record Session : Type 0 where
  pub view : Tables
  pub committed : Tables
  pub faults : List Bool

-- A session in which nothing will fail.
abbrev pub calm : Tables → Tables → Session
calm view committed = record { view = view; committed = committed; faults = [] }

abbrev pub Tx {ℓ} : Type ℓ → Type ℓ
Tx A = Session → Result A × Session

-- A statement on tables, with what it returns.
abbrev pub Statement {ℓ} : Type ℓ → Type ℓ
Statement A = Tables → Result (A × Tables)

module _ {ℓ} {A : Type ℓ} where
  unfoldable pub pure : A → Tx A
  pure a s = (ok a, s)

  unfoldable pub raise : Error → Tx A
  raise e s = (err e, s)

  unfoldable pub lift : Result A → Tx A
  lift r s = (r, s)

  abbrev pub on_view : Result (A × Tables) → Session → Result A × Session
  on_view (ok (a, t)) s = (ok a, record s { view = t })
  on_view (err e) s = (err e, s)

  -- A failed statement takes its entry of `faults` and has no effect.
  abbrev pub unless_fault :
      (Session → Result A × Session) → List Bool → Session → Result A × Session
  unless_fault run [] s = run s
  unless_fault run (fault ∷ rest) s =
      if fault
      then (err query_failed, record s { faults = rest })
      else run (record s { faults = rest })

  -- tx.Exec and tx.Query
  unfoldable pub exec : Statement A → Tx A
  exec f s = unless_fault (λ t. on_view (f t.view) t) s.faults s

  abbrev pub on_both : Result (A × Tables) → Result (A × Tables) → Session → Result A × Session
  on_both (ok (a, t)) (ok (b, v)) s = (ok a, record s { committed = t; view = v })
  on_both (ok (a, t)) (err e) s = (err e, s)
  on_both (err e) _ s = (err e, s)

  -- conn.Exec and conn.Query: outside the transaction, durable at once, and visible to it.
  unfoldable pub exec_outside : Statement A → Tx A
  exec_outside f s = unless_fault (λ t. on_both (f t.committed) (f t.view) t) s.faults s

-- DbConn.Connect begins a transaction on what is committed.
unfoldable pub connect : Tx (Unit {0})
connect s = unless_fault (λ t. (ok tt, record t { view = t.committed })) s.faults s

-- tx.Commit
unfoldable pub commit : Tx (Unit {0})
commit s = unless_fault (λ t. (ok tt, record t { committed = t.view })) s.faults s

module _ {ℓ κ} {A : Type ℓ} {B : Type κ} where
  abbrev pub continue : Result A → (A → Tx B) → Session → Result B × Session
  continue (ok a) next s = next a s
  continue (err e) next s = (err e, s)

  infixl 10 ◌>>=◌
  unfoldable pub ◌>>=◌ : Tx A → (A → Tx B) → Tx B
  unfolding pure raise lift exec exec_outside connect commit
  ◌>>=◌ m next s = let (r, s') = m s in continue r next s'

infixl 10 ◌>>◌
abbrev pub ◌>>◌ {ℓ} : {B : Type ℓ} → Tx (Unit {0}) → Tx B → Tx B
m >> next = m >>= λ _. next

module _ {ℓ} {A : Type ℓ} where
  abbrev pub on_error : (Error → Error) → Result A → Result A
  on_error f (ok a) = ok a
  on_error f (err e) = err (f e)

  -- Replaces the error of a call, as `if err != nil { return …, wrap(err) }` does.
  unfoldable pub catch : (Error → Error) → Tx A → Tx A
  catch f m s = let (r, s') = m s in (on_error f r, s')

  -- `defer close(ctx)`: what was not committed is rolled back.
  unfoldable pub close : Tx A → Tx A
  close m s = let (r, s') = m s in (r, record s' { view = s'.committed })

-- A failure that shows only in rows.Err, where nobody reads it, is no row; else Query returns it. The
-- next entry of `faults` says which.
abbrev pub pass_over : Result Bool × Session → Result Bool × Session
pass_over (ok found, s) = (ok found, s)
pass_over (err e, s) = unless_fault (λ t. (ok false, t)) s.faults s

-- tx.Query with rows.Next and rows.Close, without rows.Err: whether there is a row
unfoldable pub has_row : Statement Bool → Tx Bool
unfolding exec
has_row f s = pass_over (exec f s)

-- A statement that nothing disturbs, and what follows it.
pub exec-then {ℓ} :
    {B : Type ℓ} (f : Statement (Unit {0})) (next : Tx B) (t c t' : Tables)
    → f t ≡ ok (tt, t')
    → (exec f >> next) (calm t c) ≡ next (calm t' c)
unfolding ◌>>=◌
exec-then f next t c t' e = rw e refl
