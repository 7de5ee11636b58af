-- ===== src/Db/Session/Keeps.antt =====
-- internal/db/db.go: what a failure leaves of the durable tables, and how that composes.
use dateilager.Prelude.{◌≡◌, refl, ◌∙◌, inl, inr, arith, Bool, true, false, if◌then◌else◌}
use dateilager.Result.{Result-cases, Error, Result, ok, err}
use dateilager.Db.Session.{
  Session, Tx, Statement, pure, raise, lift, exec, has_row, pass_over, connect, commit, catch,
  close, continue, ◌>>=◌,
}

-- The durable projects, objects and caches are the same.
abbrev pub Same : Session → Session → Type 0
Same s s' =
    (s'.committed.projects ≡ s.committed.projects)
    × (s'.committed.objects ≡ s.committed.objects)
    × (s'.committed.cache_versions ≡ s.committed.cache_versions)

Same-trans : (s m e : Session) → Same s m → Same m e → Same s e
Same-trans s m e a b = (b.0 ∙ a.0, b.1 ∙ a.1, b.2 ∙ a.2)

module _ {ℓ} {A : Type ℓ} where
  -- The call leaves the durable tables alone, whatever fails.
  abbrev pub Keeps : Tx A → Type 0
  Keeps m = (s : Session) → Same s (m s).1

  -- If the call fails, it leaves the durable tables alone.
  abbrev pub KeepsOnError : Tx A → Type ℓ
  KeepsOnError m = (s : Session) (e : Error) → (m s).0 ≡ err e → Same s (m s).1

  pub Keeps-pure : (a : A) → Keeps (pure a)
  unfolding pure
  Keeps-pure a s = (refl, refl, refl)

  pub Keeps-lift : (r : Result A) → Keeps (lift r)
  unfolding lift
  Keeps-lift r s = (refl, refl, refl)

  pub Keeps-catch : (f : Error → Error) (m : Tx A) → Keeps m → Keeps (catch f m)
  unfolding catch
  Keeps-catch f m k s = k s

  pub Keeps-exec : (f : Statement A) → Keeps (exec f)
  unfolding exec
  Keeps-exec f s = ground arith

  pub keeps→on_error : (m : Tx A) → Keeps m → KeepsOnError m
  keeps→on_error m k s e h = k s

  pub on_error-catch : (f : Error → Error) (m : Tx A) → KeepsOnError m → KeepsOnError (catch f m)
  unfolding catch
  on_error-catch f m k s e h = elim (Result-cases (m s).0) [
    | inl (a, r) ↦ cc (r, h)
    | inr (e', r) ↦ k s e' r
  ]

  pub on_error-close : (m : Tx A) → KeepsOnError m → KeepsOnError (close m)
  unfolding close
  on_error-close m k s e h = k s e h

module _ {ℓ κ} {A : Type ℓ} {B : Type κ} where
  pub Keeps-continue :
      (next : A → Tx B)
      → ((a : A) → Keeps (next a))
      → (r : Result A) (s : Session) → Same s (continue r next s).1
  Keeps-continue next k (ok a) s = k a s
  Keeps-continue next k (err e) s = (refl, refl, refl)

  pub on_error-continue :
      (next : A → Tx B)
      → ((a : A) → KeepsOnError (next a))
      → (r : Result A) (s : Session) (e : Error) → (continue r next s).0 ≡ err e
      → Same s (continue r next s).1
  on_error-continue next k (ok a) s e h = k a s e h
  on_error-continue next k (err e') s e h = (refl, refl, refl)

  pub Keeps->>= :
      (m : Tx A) (next : A → Tx B) → Keeps m → ((a : A) → Keeps (next a)) → Keeps (m >>= next)
  unfolding ◌>>=◌
  Keeps->>= m next k kn s =
      Same-trans s (m s).1 ((m >>= next) s).1 (k s) (Keeps-continue next kn (m s).0 (m s).1)

  pub on_error->>= :
      (m : Tx A) (next : A → Tx B)
      → Keeps m
      → ((a : A) → KeepsOnError (next a))
      → KeepsOnError (m >>= next)
  unfolding ◌>>=◌
  on_error->>= m next k kn s e h =
      Same-trans s (m s).1 ((m >>= next) s).1 (k s) (on_error-continue next kn (m s).0 (m s).1 e h)

pub Keeps-connect : Keeps connect
unfolding connect
Keeps-connect s = ground arith

pass_over-Same : (s : Session) (x : Result Bool × Session) → Same s x.1 → Same s (pass_over x).1
pass_over-Same s (ok found, t) h = h
pass_over-Same s (err e, t) h = ground (arith, h)

pub Keeps-has_row : (f : Statement Bool) → Keeps (has_row f)
unfolding has_row
Keeps-has_row f s = pass_over-Same s (exec f s) (Keeps-exec f s)

-- A commit that fails commits nothing.
pub on_error-commit : KeepsOnError commit
unfolding commit
on_error-commit s e h = ground arith

-- A failed call ends what follows.
pub Keeps-raise {ℓ} : (A : Type ℓ) (e : Error) → Keeps {A = A} (raise e)
unfolding raise
Keeps-raise A e s = (refl, refl, refl)

module _ {ℓ} {A : Type ℓ} (m n : Tx A) where
  pub Keeps-if : (c : Bool) → Keeps m → Keeps n → Keeps (if c then m else n)
  Keeps-if true k l = k
  Keeps-if false k l = l

  pub on_error-if : (c : Bool) → KeepsOnError m → KeepsOnError n → KeepsOnError (if c then m else n)
  on_error-if true k l = k
  on_error-if false k l = l
