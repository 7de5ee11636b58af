-- ===== src/Client/Group/Unmanned.antt =====
-- Without workers the goroutines end as if all were well, as long as the channel has room.
use dateilager.Prelude.{
  ℕ, suc, ◌+◌, ◌<◌, ◌≡◌, refl, ap, sym, ◌∙◌, ◌⊎◌, inl, inr, false, none, List, [], ◌∷◌, ◌++◌,
  length, length-append, arith, All,
}
use dateilager.Result.{ok}
use dateilager.Client.Group.{
  Job, checking, sending, Group, start, IsFinished, after_check, check_response, receive_from,
}
use dateilager.Client.Group.Steps.{Step, check, send, Run, here, next}

module _ {R S : Type 0} (job : Job R S) where
  Run-first :
      {g h : Group R S} {n : ℕ} {i : Group R S} → Step job g h → Run job h n i → Run job g (suc n) i
  Run-first s here = next here s
  Run-first s (next r t) = next (Run-first s r) t

  -- The check of a response succeeds, before the first and after each, and leaves the same state.
  abbrev pub Accepts : S → S → R → Type 0
  Accepts before after r =
      (job.accept r before ≡ (ok tt, after)) × (job.accept r after ≡ (ok tt, after))

  abbrev unchecked : R → List R → List R → S → Group R S
  unchecked r rest channel s = record {
    stream = rest;
    end = ok tt;
    receiver = checking r;
    channel = channel;
    busy = [];
    idle = 0;
    written = [];
    is_cancelled = false;
    error = none;
    shared = s;
  }

  abbrev ready : R → List R → List R → S → Group R S
  ready r rest channel s = record (unchecked r rest channel s) { receiver = sending r }

  -- One response is checked and sent, where nobody takes it.
  check_ready :
      (r : R) (rest channel : List R) (s after : S)
      → job.accept r s ≡ (ok tt, after)
      → Step job (unchecked r rest channel s) (ready r rest channel after)
  unfolding check_response
  check_ready r rest channel s after e =
      check r refl (ap (λ x. after_check job r x (unchecked r rest channel s)) (sym e))

  -- What the receiver leaves when it has sent all responses.
  abbrev pub Leaves : S → Group R S → Type 0
  Leaves after g =
      (n : ℕ) × (h : Group R S) × Run job g n h
      × IsFinished h
      × (h.error ≡ none)
      × (h.written ≡ [])
      × (h.shared ≡ after)

  fill :
      (rest : List R) (r : R) (channel : List R) (before s after : S)
      → (s ≡ before) ⊎ (s ≡ after)
      → All (Accepts before after) (r ∷ rest)
      → length channel + length rest < job.capacity
      → Leaves after (unchecked r rest channel s)
  fill [] r channel before s after q a b =
      let e : job.accept r s ≡ (ok tt, after) = elim q [
        | inl z ↦ ap (job.accept r) z ∙ a.0.0
        | inr z ↦ ap (job.accept r) z ∙ a.0.1
      ] in
      (
        2,
        receive_from job [] (record (ready r [] channel after) { channel = channel ++ r ∷ [] }),
        next (next here (check_ready r [] channel s after e)) (send r refl (omega arith) refl),
        record { receiver = refl; idle = refl; busy = refl },
        refl,
        refl,
        refl,
      )
  fill (r' ∷ rest) r channel before s after q a b =
      let e : job.accept r s ≡ (ok tt, after) = elim q [
        | inl z ↦ ap (job.accept r) z ∙ a.0.0
        | inr z ↦ ap (job.accept r) z ∙ a.0.1
      ] in
      let (n, h, run, f, o, w, t) =
        fill rest r' (channel ++ r ∷ []) before after after (inr refl) a.1
          (omega (arith, length-append {0} channel (r ∷ []))) in
      (
        suc (suc n),
        h,
        Run-first (check_ready r (r' ∷ rest) channel s after e)
            (Run-first (send r refl (omega arith) refl) run),
        f,
        o,
        w,
        t,
      )

  pub unmanned_lem :
      (first : R) (rest : List R) (s after : S)
      → All (Accepts s after) (first ∷ rest)
      → length rest < job.capacity
      → Leaves after (start first rest (ok tt) 0 s)
  unmanned_lem first rest s after a b = fill rest first [] s s after (inl refl) a (omega arith)
