-- ===== src/Client/Group/Accepted.antt =====
-- Whatever the check of responses rules out is not written.
use dateilager.Prelude.{
  ℕ, ◌+◌, ◌≡◌, ◌≢◌, refl, ap, sym, subst, ◌∙◌, ◌⊎◌, inl, inr, none, List, [], ◌∷◌, ◌++◌, arith,
}
use dateilager.Result.{Error, Result, ok, err}
use dateilager.Client.Group.{
  Job, Receiver, checking, sending, stopped, Group, start, fail, IsFinished, after_check,
  check_response, after_end, receive_from, after_write,
}
use dateilager.Client.Group.Steps.{
  Step, check, send, stop, take, write, leave, quit, Run, here, next,
}
use dateilager.Client.Group.Kept.{first_error-ne-none, total, total-append}

module _ {R S : Type 0} (job : Job R S) (fault : R → ℕ) (first : R) (Fresh Good : S → Type 0) where
  -- What the check and the writing of a response give: `fault` counts what the check rules out.
  pub record IsChecking : Type 0 where
    pub first_check :
        (s s' : S) → Fresh s → job.accept first s ≡ (ok tt, s') → (fault first ≡ 0) × Good s'
    pub later_check :
        (r : R) (s s' : S) → Good s → job.accept r s ≡ (ok tt, s') → (fault r ≡ 0) × Good s'
    pub written_fresh : (r : R) (s : S) → Fresh s → Fresh (job.write r s).1
    pub written : (r : R) (s : S) → Good s → Good (job.write r s).1

  abbrev passed : Receiver R → ℕ
  passed (sending r) = fault r
  passed (checking r) = 0
  passed stopped = 0

  abbrev faults : Group R S → ℕ
  faults g = total fault g.written + total fault g.busy + total fault g.channel + passed g.receiver

  -- Before the first check, and after it.
  abbrev pub Passes : Group R S → Type 0
  Passes g =
      g.error ≡ none
      → (((g.receiver ≡ checking first) × Fresh g.shared) ⊎ Good g.shared) × (faults g ≡ 0)

  failed : (e : Error) (g : Group R S) → Passes (fail e g)
  unfolding fail
  failed e g h = absurd (first_error-ne-none g.error e h)

  after_check-Passes :
      (r : R) (x : Result (Unit {0}) × S) (g : Group R S)
      → ((s : S) → g.error ≡ none → x ≡ (ok tt, s) → (fault r ≡ 0) × Good s)
      → (g.error ≡ none → total fault g.written + total fault g.busy + total fault g.channel ≡ 0)
      → Passes (after_check job r x g)
  after_check-Passes r (ok u, s) g k z h =
      let (f, good) = k s h refl in (inr good, omega (arith, f, z h))
  after_check-Passes r (err d, s) g k z h = failed d (record g { receiver = stopped; shared = s }) h

  after_end-Passes :
      (x : Result (Unit {0})) (g : Group R S)
      → (g.error ≡ none → Good g.shared)
      → (g.error ≡ none → total fault g.written + total fault g.busy + total fault g.channel ≡ 0)
      → Passes (after_end job x g)
  after_end-Passes (ok u) g k z h = (inr (k h), omega (arith, z h))
  after_end-Passes (err d) g k z h = failed (job.on_lost d) (record g { receiver = stopped }) h

  receive_from-Passes :
      (rs : List R) (g : Group R S)
      → (g.error ≡ none → Good g.shared)
      → (g.error ≡ none → total fault g.written + total fault g.busy + total fault g.channel ≡ 0)
      → Passes (receive_from job rs g)
  receive_from-Passes [] g k z h = after_end-Passes g.end g k z h
  receive_from-Passes (r ∷ rs) g k z h = (inr (k h), omega (arith, z h))

  after_write-Passes :
      (r : R) (x : Result (Unit {0}) × S) (g : Group R S)
      → (g.error ≡ none
          → (((g.receiver ≡ checking first) × Fresh x.1) ⊎ Good x.1) × (faults g + fault r ≡ 0))
      → Passes (after_write job r x g)
  unfolding total
  after_write-Passes r (ok u, s) g k h = ((k h).0, omega (arith, (k h).1))
  after_write-Passes r (err d, s) g k h = failed d (record g { shared = s }) h

  -- The receiver is past the first check once it has something to send, or has stopped.
  good_now :
      (g : Group R S)
      → g.receiver ≢ checking first
      → ((g.receiver ≡ checking first) × Fresh g.shared) ⊎ Good g.shared
      → Good g.shared
  good_now g n (inl (e, f)) = absurd (n e)
  good_now g n (inr good) = good

  module _ (law : IsChecking) where
    check-Passes :
        (r : R) (g : Group R S)
        → g.receiver ≡ checking r
        → Passes g
        → (s : S) → g.error ≡ none
        → job.accept r g.shared ≡ (ok tt, s)
        → (fault r ≡ 0) × Good s
    check-Passes r g e p s h a = elim (p h).0 [
      | inr good ↦ law.later_check r g.shared s good a
      | inl (q, fresh) ↦
          let same : r ≡ first = cc (e, q) in
          let (f, good) =
            law.first_check g.shared s fresh (ap (λ x. job.accept x g.shared) (sym same) ∙ a) in
          (ap fault same ∙ f, good)
    ]

    Step-Passes : {g h : Group R S} → Step job g h → Passes g → Passes h
    unfolding total check_response fail
    Step-Passes {g = g} (check r e d) p = subst Passes (sym d) (
        after_check-Passes r (job.accept r g.shared) g (check-Passes r g e p)
          (λ h. omega (arith, (p h).1)))
    Step-Passes {g = g} (send r e b d) p =
        let past : g.receiver ≢ checking first = (λ q. cc (e, q)) in
        subst Passes (sym d) (
          receive_from-Passes g.stream (record g { channel = g.channel ++ r ∷ [] })
            (λ h. good_now g past (p h).0)
            (λ h. omega (arith, (p h).1, ap passed e, total-append fault g.channel (r ∷ []))))
    Step-Passes {g = g} (stop r e b d) p =
        let past : g.receiver ≢ checking first = (λ q. cc (e, q)) in
        subst Passes (sym d) (λ h. (inr (good_now g past (p h).0), omega (arith, (p h).1)))
    Step-Passes {g = g} (take r rest idle e i d) p =
        subst Passes (sym d) (λ h. ((p h).0, omega (arith, (p h).1, ap (total fault) e)))
    Step-Passes {g = g} (write before r after e d) p = subst Passes (sym d) (
        after_write-Passes r (job.write r g.shared) (record g { busy = before ++ after })
          (λ h. (
            elim (p h).0 [
              | inl (q, fresh) ↦ inl (q, law.written_fresh r g.shared fresh)
              | inr good ↦ inr (law.written r g.shared good)
            ],
            omega (
              arith,
              (p h).1,
              ap (total fault) e,
              total-append fault before (r ∷ after),
              total-append fault before after,
            ),
          )))
    Step-Passes {g = g} (leave idle i e s d) p = subst Passes (sym d) (λ h. p h)
    Step-Passes {g = g} (quit idle i b d) p =
        subst Passes (sym d) (failed job.cancelled (record g { idle = idle }))

    Run-Passes : {g : Group R S} {n : ℕ} {h : Group R S} → Run job g n h → Passes g → Passes h
    Run-Passes here p = p
    Run-Passes (next r s) p = Step-Passes s (Run-Passes r p)

    -- A run that ends without an error has only written what the check let through.
    pub written_passed :
        (rest : List R) (end : Result (Unit {0})) (workers : ℕ) (s : S) {n : ℕ} {h : Group R S}
        → Fresh s
        → Run job (start first rest end workers s) n h
        → IsFinished h
        → h.error ≡ none
        → Good h.shared × (total fault h.written ≡ 0)
    unfolding total
    written_passed rest end workers s {h = h} fresh r f o =
        let p = Run-Passes r (λ _. (inl (refl, fresh), omega arith)) o in
        let past : h.receiver ≢ checking first = (λ q. cc (f.receiver, q)) in
        (good_now h past p.0, omega (arith, p.1))
