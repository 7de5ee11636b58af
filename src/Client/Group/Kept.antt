-- ===== src/Client/Group/Kept.antt =====
-- No response is lost or written twice, unless a goroutine returns an error.
use dateilager.Prelude.{
  ℕ, ◌+◌, ◌≡◌, ◌≢◌, refl, ap, sym, subst, true, Option, none, some, List, [], ◌∷◌, ◌++◌, arith,
}
use dateilager.Result.{Error, Result, ok, err}
use dateilager.Client.Group.{
  Job, Receiver, checking, sending, stopped, Group, first_error, fail, after_check, check_response,
  after_end, receive_from, after_write,
}
use dateilager.Client.Group.Steps.{Step, check, send, stop, take, write, leave, quit}

pub first_error-ne-none : (first : Option Error) (e : Error) → first_error first e ≢ none
first_error-ne-none none e h = cc
first_error-ne-none (some d) e h = cc

module _ {R : Type 0} (weight : R → ℕ) where
  unfoldable pub total : List R → ℕ
  total [] = 0
  total (r ∷ rs) = weight r + total rs

  pub total-append : (xs ys : List R) → total (xs ++ ys) ≡ total xs + total ys
  unfolding total
  total-append [] ys = omega arith
  total-append (x ∷ xs) ys = omega (arith, total-append xs ys)

  abbrev pub held : Receiver R → ℕ
  held (checking r) = weight r
  held (sending r) = weight r
  held stopped = 0

-- Two lists hold the same items, as often, in any order: whatever one counts in them is the same.
abbrev pub SameItems : {R : Type 0} → List R → List R → Type 0
SameItems {R} xs ys = (weight : R → ℕ) → total weight xs ≡ total weight ys

module _ {R S : Type 0} (job : Job R S) (weight : R → ℕ) where
  -- What the responses weigh, wherever they are.
  abbrev pub load : Group R S → ℕ
  load g =
      total weight g.written
      + total weight g.busy
      + total weight g.channel
      + held weight g.receiver
      + total weight g.stream

  abbrev pub Loads : ℕ → Group R S → Type 0
  Loads n g = g.error ≡ none → load g ≡ n

  after_check-Loads :
      (n : ℕ) (r : R) (x : Result (Unit {0}) × S) (g : Group R S)
      → g.receiver ≡ checking r
      → Loads n g
      → Loads n (after_check job r x g)
  unfolding fail
  after_check-Loads n r (ok u, s) g e k h = omega (arith, ap (held weight) e, k h)
  after_check-Loads n r (err d, s) g e k h = absurd (first_error-ne-none g.error d h)

  after_end-Loads :
      (n : ℕ) (x : Result (Unit {0})) (g : Group R S)
      → (g.error ≡ none → load (record g { receiver = stopped }) ≡ n)
      → Loads n (after_end job x g)
  unfolding fail
  after_end-Loads n (ok u) g k h = k h
  after_end-Loads n (err d) g k h = absurd (first_error-ne-none g.error (job.on_lost d) h)

  receive_from-Loads :
      (n : ℕ) (rs : List R) (g : Group R S)
      → g.stream ≡ rs
      → (g.error ≡ none → load (record g { receiver = stopped }) ≡ n)
      → Loads n (receive_from job rs g)
  unfolding total
  receive_from-Loads n [] g e k h = after_end-Loads n g.end g k h
  receive_from-Loads n (r ∷ rs) g e k h = omega (arith, k h, ap (total weight) e)

  after_write-Loads :
      (n : ℕ) (r : R) (x : Result (Unit {0}) × S) (g : Group R S)
      → (g.error ≡ none → load g + weight r ≡ n)
      → Loads n (after_write job r x g)
  unfolding total fail
  after_write-Loads n r (ok u, s) g k h = omega (arith, k h)
  after_write-Loads n r (err d, s) g k h = absurd (first_error-ne-none g.error d h)

  pub Step-Loads :
      (n : ℕ) {g h : Group R S}
      → (g.is_cancelled ≡ true → g.error ≢ none)
      → Step job g h
      → Loads n g
      → Loads n h
  unfolding total check_response fail
  Step-Loads n {g = g} c (check r e d) k =
      subst (Loads n) (sym d) (after_check-Loads n r (job.accept r g.shared) g e k)
  Step-Loads n {g = g} c (send r e b d) k = subst (Loads n) (sym d) (
      receive_from-Loads n g.stream (record g { channel = g.channel ++ r ∷ [] }) refl
        (λ h. omega (arith, ap (held weight) e, k h, total-append weight g.channel (r ∷ []))))
  Step-Loads n {g = g} c (stop r e b d) k = subst (Loads n) (sym d) (λ h. absurd (c b h))
  Step-Loads n {g = g} c (take r rest idle e i d) k =
      subst (Loads n) (sym d) (λ h. omega (arith, ap (total weight) e, k h))
  Step-Loads n {g = g} c (write before r after e d) k = subst (Loads n) (sym d) (
      after_write-Loads n r (job.write r g.shared) (record g { busy = before ++ after })
        (λ h. omega (
          arith,
          ap (total weight) e,
          k h,
          total-append weight before (r ∷ after),
          total-append weight before after,
        )))
  Step-Loads n {g = g} c (leave idle i e s d) k = subst (Loads n) (sym d) (λ h. k h)
  Step-Loads n {g = g} c (quit idle i b d) k =
      subst (Loads n) (sym d) (λ h. absurd (first_error-ne-none g.error job.cancelled h))
