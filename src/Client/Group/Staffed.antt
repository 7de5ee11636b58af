-- ===== src/Client/Group/Staffed.antt =====
-- What every run of the goroutines keeps: an error is recorded with each cancellation, the receiver
-- stops at the end of the stream, and workers leave when there is nothing left to write.
use dateilager.Prelude.{
  ℕ, suc, ◌+◌, ◌≡◌, ◌≢◌, refl, ap, sym, subst, ◌∙◌, ◌⊎◌, inl, inr, true, none, List, [], ◌∷◌, ◌++◌,
  length, length-append, arith,
}
use dateilager.Result.{Error, Result, ok, err}
use dateilager.Client.Group.{
  Job, Receiver, checking, sending, stopped, Group, fail, after_check, check_response, after_end,
  receive_from, after_write,
}
use dateilager.Client.Group.Steps.{Step, check, send, stop, take, write, leave, quit}
use dateilager.Client.Group.Kept.{first_error-ne-none}

module _ {R S : Type 0} where
  -- All workers are there, or have nothing to do, or may leave.
  abbrev pub Staffed : ℕ → Group R S → Type 0
  Staffed workers g =
      (g.idle + length g.busy ≡ workers)
      ⊎ (((g.receiver ≡ stopped) × (g.channel ≡ [])) ⊎ (g.is_cancelled ≡ true))

  pub record IsSteady (workers : ℕ) (g : Group R S) : Type 0 where
    pub fails : g.is_cancelled ≡ true → g.error ≢ none
    pub ended : g.receiver ≡ stopped → g.error ≡ none → (g.stream ≡ []) × (g.end ≡ ok tt)
    pub staffed : Staffed workers g

  fail-IsSteady : (workers : ℕ) (e : Error) (g : Group R S) → IsSteady workers (fail e g)
  unfolding fail
  fail-IsSteady workers e g = record {
    fails = λ _. first_error-ne-none g.error e;
    ended = λ q h. absurd (first_error-ne-none g.error e h);
    staffed = inr (inr refl);
  }

  -- Workers do not leave before the receiver stops, unless the group is cancelled.
  while_going :
      (workers : ℕ) (g h : Group R S)
      → g.receiver ≢ stopped
      → h.idle + length h.busy ≡ g.idle + length g.busy
      → h.is_cancelled ≡ g.is_cancelled
      → Staffed workers g
      → Staffed workers h
  while_going workers g h n e c (inl a) = inl (e ∙ a)
  while_going workers g h n e c (inr (inl (q, z))) = absurd (n q)
  while_going workers g h n e c (inr (inr b)) = inr (inr (c ∙ b))

module _ {R S : Type 0} (job : Job R S) (workers : ℕ) where
  after_check-IsSteady :
      (r : R) (x : Result (Unit {0}) × S) (g : Group R S)
      → g.receiver ≢ stopped
      → IsSteady workers g
      → IsSteady workers (after_check job r x g)
  after_check-IsSteady r (ok u, s) g n v = record {
    fails = v.fails;
    ended = λ q h. cc;
    staffed =
        while_going workers g (record g { receiver = sending r; shared = s }) n refl refl v.staffed;
  }
  after_check-IsSteady r (err d, s) g n v =
      fail-IsSteady workers d (record g { receiver = stopped; shared = s })

  after_end-IsSteady :
      (x : Result (Unit {0})) (g f : Group R S)
      → g.end ≡ x
      → g.stream ≡ []
      → f.receiver ≢ stopped
      → f.idle + length f.busy ≡ g.idle + length g.busy
      → f.is_cancelled ≡ g.is_cancelled
      → f.error ≡ g.error
      → IsSteady workers f
      → IsSteady workers (after_end job x g)
  after_end-IsSteady (ok u) g f e z n i c o v = record {
    fails = λ b h. v.fails (c ∙ b) (o ∙ h);
    ended = λ q h. (z, e);
    staffed = while_going workers f (record g { receiver = stopped }) n (sym i) (sym c) v.staffed;
  }
  after_end-IsSteady (err d) g f e z n i c o v =
      fail-IsSteady workers (job.on_lost d) (record g { receiver = stopped })

  receive_from-IsSteady :
      (rs : List R) (g f : Group R S)
      → g.stream ≡ rs
      → f.receiver ≢ stopped
      → f.idle + length f.busy ≡ g.idle + length g.busy
      → f.is_cancelled ≡ g.is_cancelled
      → f.error ≡ g.error
      → IsSteady workers f
      → IsSteady workers (receive_from job rs g)
  receive_from-IsSteady [] g f e n i c o v = after_end-IsSteady g.end g f refl e n i c o v
  receive_from-IsSteady (r ∷ rs) g f e n i c o v = record {
    fails = λ b h. v.fails (c ∙ b) (o ∙ h);
    ended = λ q h. cc;
    staffed =
        while_going workers f (record g { receiver = checking r; stream = rs }) n (sym i) (sym c)
          v.staffed;
  }

  after_write-IsSteady :
      (r : R) (x : Result (Unit {0}) × S) (g f : Group R S)
      → f.idle + length f.busy ≡ suc (g.idle + length g.busy)
      → f.receiver ≡ g.receiver
      → f.channel ≡ g.channel
      → f.stream ≡ g.stream
      → f.end ≡ g.end
      → f.is_cancelled ≡ g.is_cancelled
      → f.error ≡ g.error
      → IsSteady workers f
      → IsSteady workers (after_write job r x g)
  after_write-IsSteady r (ok u, s) g f i q c t e b o v = record {
    fails = λ k h. v.fails (b ∙ k) (o ∙ h);
    ended = λ k h. let (z, d) = v.ended (q ∙ k) (o ∙ h) in (sym t ∙ z, sym e ∙ d);
    staffed = elim v.staffed [
      | inl a ↦ inl (omega (arith, i, a))
      | inr (inl (k, z)) ↦ inr (inl (sym q ∙ k, sym c ∙ z))
      | inr (inr k) ↦ inr (inr (sym b ∙ k))
    ];
  }
  after_write-IsSteady r (err d, s) g f i q c t e b o v =
      fail-IsSteady workers d (record g { shared = s })

  sending-ne-stopped : {r : R} {x : Receiver R} → x ≡ sending r → x ≢ stopped
  sending-ne-stopped e q = cc

  checking-ne-stopped : {r : R} {x : Receiver R} → x ≡ checking r → x ≢ stopped
  checking-ne-stopped e q = cc

  pub Step-IsSteady : {g h : Group R S} → Step job g h → IsSteady workers g → IsSteady workers h
  unfolding check_response
  Step-IsSteady {g = g} (check r e d) v =
      subst (IsSteady workers) (sym d)
        (after_check-IsSteady r (job.accept r g.shared) g (checking-ne-stopped e) v)
  Step-IsSteady {g = g} (send r e b d) v = subst (IsSteady workers) (sym d) (
      receive_from-IsSteady g.stream (record g { channel = g.channel ++ r ∷ [] }) g refl
        (sending-ne-stopped e) refl refl refl v)
  Step-IsSteady {g = g} (stop r e b d) v =
      subst (IsSteady workers) (sym d)
        (record { fails = v.fails; ended = λ q h. absurd (v.fails b h); staffed = inr (inr b) })
  Step-IsSteady {g = g} (take r rest idle e i d) v = subst (IsSteady workers) (sym d) (record {
    fails = v.fails;
    ended = v.ended;
    staffed = elim v.staffed [
      | inl a ↦ inl (omega (arith, i, a))
      | inr (inl (k, z)) ↦ cc (z, e)
      | inr (inr k) ↦ inr (inr k)
    ];
  })
  Step-IsSteady {g = g} (write before r after e d) v =
      let count : g.idle + length g.busy ≡ suc (g.idle + length (before ++ after)) = omega (
        arith,
        ap length e,
        length-append {0} before (r ∷ after),
        length-append {0} before after,
      ) in
      subst (IsSteady workers) (sym d) (
        after_write-IsSteady r (job.write r g.shared) (record g { busy = before ++ after }) g count
          refl refl refl refl refl refl v)
  Step-IsSteady {g = g} (leave idle i e s d) v =
      subst (IsSteady workers) (sym d)
        (record { fails = v.fails; ended = v.ended; staffed = inr (inl (s, e)) })
  Step-IsSteady {g = g} (quit idle i b d) v =
      subst (IsSteady workers) (sym d)
        (fail-IsSteady workers job.cancelled (record g { idle = idle }))
