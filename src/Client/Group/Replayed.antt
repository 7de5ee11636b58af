-- ===== src/Client/Group/Replayed.antt =====
-- What the workers have done is what was written, one response after another.
use dateilager.Prelude.{ℕ, ◌≡◌, refl, ap, sym, subst, ◌∙◌, none, List, [], ◌∷◌, ◌++◌}
use dateilager.Result.{Error, Result, ok, err}
use dateilager.Client.Group.{
  Job, stopped, Group, start, fail, after_check, check_response, after_end, receive_from,
  after_write,
}
use dateilager.Client.Group.Steps.{
  Step, check, send, stop, take, write, leave, quit, Run, here, next,
}
use dateilager.Client.Group.Kept.{first_error-ne-none}

-- Each response in its turn, the last one first in the list.
unfoldable pub replay : {R D : Type 0} → (R → D → D) → D → List R → D
replay apply d [] = d
replay apply d (r ∷ rs) = apply r (replay apply d rs)

module _ {R S D : Type 0} (job : Job R S) (view : S → D) (apply : R → D → D) where
  -- The check of a response does not touch what is looked at; the writing does to it what it does.
  pub record IsApplied : Type 0 where
    pub accepts : (r : R) (s : S) → view (job.accept r s).1 ≡ view s
    pub writes : (r : R) (s : S) → view (job.write r s).1 ≡ apply r (view s)

  module _ (d : D) (law : IsApplied) where
    abbrev Replays : Group R S → Type 0
    Replays g = g.error ≡ none → view g.shared ≡ replay apply d g.written

    failed : (e : Error) (g : Group R S) → Replays (fail e g)
    unfolding fail
    failed e g h = absurd (first_error-ne-none g.error e h)

    after_check-Replays :
        (r : R) (x : Result (Unit {0}) × S) (g : Group R S)
        → (g.error ≡ none → view x.1 ≡ replay apply d g.written)
        → Replays (after_check job r x g)
    after_check-Replays r (ok u, s) g k h = k h
    after_check-Replays r (err e, s) g k h =
        failed e (record g { receiver = stopped; shared = s }) h

    after_end-Replays :
        (x : Result (Unit {0})) (g : Group R S) → Replays g → Replays (after_end job x g)
    after_end-Replays (ok u) g k h = k h
    after_end-Replays (err e) g k h = failed (job.on_lost e) (record g { receiver = stopped }) h

    receive_from-Replays :
        (rs : List R) (g : Group R S) → Replays g → Replays (receive_from job rs g)
    receive_from-Replays [] g k h = after_end-Replays g.end g k h
    receive_from-Replays (r ∷ rs) g k h = k h

    after_write-Replays :
        (r : R) (x : Result (Unit {0}) × S) (g : Group R S)
        → (g.error ≡ none → view x.1 ≡ apply r (replay apply d g.written))
        → Replays (after_write job r x g)
    unfolding replay
    after_write-Replays r (ok u, s) g k h = k h
    after_write-Replays r (err e, s) g k h = failed e (record g { shared = s }) h

    Step-Replays : {g h : Group R S} → Step job g h → Replays g → Replays h
    unfolding check_response
    Step-Replays {g = g} (check r e q) k =
        subst Replays (sym q)
          (after_check-Replays r (job.accept r g.shared) g (λ h. law.accepts r g.shared ∙ k h))
    Step-Replays {g = g} (send r e b q) k =
        subst Replays (sym q)
          (receive_from-Replays g.stream (record g { channel = g.channel ++ r ∷ [] }) k)
    Step-Replays {g = g} (stop r e b q) k = subst Replays (sym q) k
    Step-Replays {g = g} (take r rest idle e i q) k = subst Replays (sym q) k
    Step-Replays {g = g} (write before r after e q) k = subst Replays (sym q) (
        after_write-Replays r (job.write r g.shared) (record g { busy = before ++ after })
          (λ h. law.writes r g.shared ∙ ap (apply r) (k h)))
    Step-Replays {g = g} (leave idle i e s q) k = subst Replays (sym q) k
    Step-Replays {g = g} (quit idle i b q) k =
        subst Replays (sym q) (failed job.cancelled (record g { idle = idle }))

    Run-Replays : {g : Group R S} {n : ℕ} {h : Group R S} → Run job g n h → Replays g → Replays h
    Run-Replays here k = k
    Run-Replays (next r s) k = Step-Replays s (Run-Replays r k)

  -- When no goroutine has failed, what is looked at is what it was, with each written response
  -- applied to it in the order of the writing.
  pub replayed :
      (first : R) (rest : List R) (end : Result (Unit {0})) (workers : ℕ) (s : S) {n : ℕ}
      {h : Group R S}
      → IsApplied
      → Run job (start first rest end workers s) n h
      → h.error ≡ none
      → view h.shared ≡ replay apply (view s) h.written
  unfolding replay
  replayed first rest end workers s law r o = Run-Replays (view s) law r (λ _. refl) o
