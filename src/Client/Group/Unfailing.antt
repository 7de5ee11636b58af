-- ===== src/Client/Group/Unfailing.antt =====
-- Goroutines that have no reason to fail do not fail, in whatever order they run: one that does has
-- something to blame.
use dateilager.Prelude.{
  ℕ, ◌≡◌, ◌⊎◌, inl, inr, refl, sym, subst, false, none, List, [], ◌∷◌, ◌++◌, All,
}
use dateilager.Result.{ok}
use dateilager.Client.Group.{
  Job, Receiver, checking, sending, stopped, Group, start, after_check, check_response, after_end,
  receive_from, after_write,
}
use dateilager.Client.Group.Steps.{
  Step, check, send, stop, take, write, leave, quit, Run, here, next,
}

All-join : {A : Type 0} (P : A → Type 0) (xs ys : List A) → All P xs → All P ys → All P (xs ++ ys)
All-join P [] ys a b = b
All-join P (x ∷ xs) ys a b = (a.0, All-join P xs ys a.1 b)

All-left : {A : Type 0} (P : A → Type 0) (xs ys : List A) → All P (xs ++ ys) → All P xs
All-left P [] ys a = tt
All-left P (x ∷ xs) ys a = (a.0, All-left P xs ys a.1)

All-right : {A : Type 0} (P : A → Type 0) (xs ys : List A) → All P (xs ++ ys) → All P ys
All-right P [] ys a = a
All-right P (x ∷ xs) ys a = All-right P xs ys a.1

module _ {R S : Type 0} (job : Job R S) (Fine : R → Type 0) (Good : S → Type 0)
    (Blame : Type 0) where
  -- A fine response passes the check where what is shared is good; it is written, or there is
  -- something to blame.
  pub record IsUnfailing : Type 0 where
    pub accepts :
        (r : R) (s : S) → Fine r → Good s → (s' : S) × (job.accept r s ≡ (ok tt, s')) × Good s'
    pub writes :
        (r : R) (s : S)
        → Fine r
        → Good s
        → ((s' : S) × (job.write r s ≡ (ok tt, s')) × Good s') ⊎ Blame

  abbrev FineAt : Receiver R → Type 0
  FineAt (checking r) = Fine r
  FineAt (sending r) = Fine r
  FineAt stopped = Unit {0}

  pub record IsCalm (g : Group R S) : Type 0 where
    pub error : g.error ≡ none
    pub going : g.is_cancelled ≡ false
    pub end : g.end ≡ ok tt
    pub stream : All Fine g.stream
    pub receiver : FineAt g.receiver
    pub channel : All Fine g.channel
    pub busy : All Fine g.busy
    pub shared : Good g.shared

  receive_from-IsCalm :
      (rs : List R) (g : Group R S) → g.stream ≡ rs → IsCalm g → IsCalm (receive_from job rs g)
  receive_from-IsCalm [] g e v =
      let ended : IsCalm (record g { receiver = stopped }) = (record {
        error = v.error;
        going = v.going;
        end = v.end;
        stream = v.stream;
        receiver = tt;
        channel = v.channel;
        busy = v.busy;
        shared = v.shared;
      }) in
      subst (λ x. IsCalm (after_end job x g)) (sym v.end) ended
  receive_from-IsCalm (r ∷ rs) g e v =
      let fine = subst (All Fine) e v.stream in
      record {
        error = v.error;
        going = v.going;
        end = v.end;
        stream = fine.1;
        receiver = fine.0;
        channel = v.channel;
        busy = v.busy;
        shared = v.shared;
      }

  module _ (law : IsUnfailing) where
    checked_fine :
        (r : R) (g : Group R S)
        → g.receiver ≡ checking r
        → IsCalm g
        → IsCalm (check_response job r g)
    unfolding check_response
    checked_fine r g e v =
        let fine : Fine r = subst FineAt e v.receiver in
        let (s, a, good) = law.accepts r g.shared fine v.shared in
        subst (λ x. IsCalm (after_check job r x g)) (sym a)
          (record {
            error = v.error;
            going = v.going;
            end = v.end;
            stream = v.stream;
            receiver = fine;
            channel = v.channel;
            busy = v.busy;
            shared = good;
          })

    written_fine :
        (before : List R) (r : R) (after : List R) (g : Group R S)
        → g.busy ≡ before ++ r ∷ after
        → IsCalm g
        → IsCalm (after_write job r (job.write r g.shared) (record g { busy = before ++ after }))
          ⊎ Blame
    written_fine before r after g e v =
        let fine : All Fine (before ++ r ∷ after) = subst (All Fine) e v.busy in
        let rest = All-right Fine before (r ∷ after) fine in
        elim (law.writes r g.shared rest.0 v.shared) [
          | inr blame ↦ inr blame
          | inl (s, a, good) ↦ inl (
              subst (λ x. IsCalm (after_write job r x (record g { busy = before ++ after })))
                (sym a)
                (record {
                  error = v.error;
                  going = v.going;
                  end = v.end;
                  stream = v.stream;
                  receiver = v.receiver;
                  channel = v.channel;
                  busy = All-join Fine before after (All-left Fine before (r ∷ after) fine) rest.1;
                  shared = good;
                }))
        ]

    Step-IsCalm : {g h : Group R S} → Step job g h → IsCalm g → IsCalm h ⊎ Blame
    Step-IsCalm {g = g} (check r e d) v = inl (subst IsCalm (sym d) (checked_fine r g e v))
    Step-IsCalm {g = g} (send r e b d) v = inl (
        subst IsCalm (sym d) (
          receive_from-IsCalm g.stream (record g { channel = g.channel ++ r ∷ [] }) refl
            (record {
              error = v.error;
              going = v.going;
              end = v.end;
              stream = v.stream;
              receiver = v.receiver;
              channel = All-join Fine g.channel (r ∷ []) v.channel (subst FineAt e v.receiver, tt);
              busy = v.busy;
              shared = v.shared;
            })))
    Step-IsCalm {g = g} (stop r e b d) v = absurd (cc (b, v.going))
    Step-IsCalm {g = g} (take r rest idle e i d) v = inl (
        let fine : All Fine (r ∷ rest) = subst (All Fine) e v.channel in
        subst IsCalm (sym d) (record {
          error = v.error;
          going = v.going;
          end = v.end;
          stream = v.stream;
          receiver = v.receiver;
          channel = fine.1;
          busy = (fine.0, v.busy);
          shared = v.shared;
        }))
    Step-IsCalm {g = g} (write before r after e d) v =
        subst (λ x. IsCalm x ⊎ Blame) (sym d) (written_fine before r after g e v)
    Step-IsCalm {g = g} (leave idle i e s d) v = inl (
        subst IsCalm (sym d) (record {
          error = v.error;
          going = v.going;
          end = v.end;
          stream = v.stream;
          receiver = v.receiver;
          channel = v.channel;
          busy = v.busy;
          shared = v.shared;
        }))
    Step-IsCalm {g = g} (quit idle i b d) v = absurd (cc (b, v.going))

    Run-IsCalm :
        {g : Group R S} {n : ℕ} {h : Group R S} → Run job g n h → IsCalm g → IsCalm h ⊎ Blame
    Run-IsCalm here v = inl v
    Run-IsCalm (next r s) v = elim (Run-IsCalm r v) [
      | inl c ↦ Step-IsCalm s c
      | inr blame ↦ inr blame
    ]

    -- If all responses are fine, the stream ends without an error and what is shared is good, then no
    -- run of the goroutines records an error, or there is something to blame.
    pub unfailing_lem :
        (first : R) (rest : List R) (workers : ℕ) (s : S) {n : ℕ} {h : Group R S}
        → All Fine (first ∷ rest)
        → Good s
        → Run job (start first rest (ok tt) workers s) n h
        → (h.error ≡ none) ⊎ Blame
    unfailing_lem first rest workers s {h = h} fine good r =
        elim (Run-IsCalm r (record {
          error = refl;
          going = refl;
          end = refl;
          stream = fine.1;
          receiver = fine.0;
          channel = tt;
          busy = tt;
          shared = good;
        })) [ inl c ↦ inl c.error | inr blame ↦ inr blame ]
