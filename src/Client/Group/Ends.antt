-- ===== src/Client/Group/Ends.antt =====
-- Every run of the goroutines ends, and a run without an error has written each response once.
use dateilager.Prelude.{
  ℕ, zero, suc, ◌+◌, ◌*◌, ◌≤◌, ◌<◌, ◌≡◌, refl, ap, sym, subst, ◌⊎◌, inl, inr, Bool-cases, ltb, none,
  List, [], ◌∷◌, ◌++◌, length, length-append, arith,
}
use dateilager.Result.{Result, ok, err}
use dateilager.Client.Group.{
  Job, Receiver, checking, sending, stopped, Group, start, fail, IsFinished, after_check,
  check_response, after_end, receive_from, after_write,
}
use dateilager.Client.Group.Steps.{
  Step, check, send, stop, take, write, leave, quit, Run, here, next,
}
use dateilager.Client.Group.Kept.{total, held, SameItems, Loads, Step-Loads}
use dateilager.Client.Group.Staffed.{Staffed, IsSteady, Step-IsSteady}

abbrev work_left : {R : Type 0} → Receiver R → ℕ
work_left (checking r) = 4
work_left (sending r) = 3
work_left stopped = 0

Receiver-cases :
    {R : Type 0} (x : Receiver R)
    → ((r : R) × (x ≡ checking r)) ⊎ (((r : R) × (x ≡ sending r)) ⊎ (x ≡ stopped))
Receiver-cases (checking r) = inl (r, refl)
Receiver-cases (sending r) = inr (inl (r, refl))
Receiver-cases stopped = inr (inr refl)

pub List-cases : {A : Type 0} (xs : List A) → (xs ≡ []) ⊎ ((x : A) × (ys : List A) × (xs ≡ x ∷ ys))
List-cases [] = inl refl
List-cases (x ∷ xs) = inr (x, xs, refl)

pub ℕ-cases : (n : ℕ) → (n ≡ 0) ⊎ ((k : ℕ) × (n ≡ suc k))
ℕ-cases zero = inl refl
ℕ-cases (suc k) = inr (k, refl)

module _ {R S : Type 0} where
  -- What is left to do at most, in steps.
  abbrev pub steps_left : Group R S → ℕ
  steps_left g =
      5 * length g.stream + work_left g.receiver + 2 * length g.channel + 2 * length g.busy + g.idle

module _ {R S : Type 0} (job : Job R S) where
  check-lt :
      (r : R) (x : Result (Unit {0}) × S) (g : Group R S)
      → g.receiver ≡ checking r
      → steps_left (after_check job r x g) < steps_left g
  unfolding fail
  check-lt r (ok u, s) g e = omega (arith, ap work_left e)
  check-lt r (err d, s) g e = omega (arith, ap work_left e)

  end-lt :
      (x : Result (Unit {0})) (g : Group R S)
      → steps_left (after_end job x g) ≤ steps_left (record g { receiver = stopped })
  unfolding fail
  end-lt (ok u) g = omega arith
  end-lt (err d) g = omega arith

  receive-lt :
      (rs : List R) (g : Group R S)
      → g.stream ≡ rs
      → steps_left (receive_from job rs g) ≤ steps_left (record g { receiver = stopped })
  receive-lt [] g e = end-lt g.end g
  receive-lt (r ∷ rs) g e = omega (arith, ap length e)

  write-lt :
      (r : R) (x : Result (Unit {0}) × S) (g : Group R S)
      → steps_left (after_write job r x g) ≤ suc (steps_left g)
  unfolding fail
  write-lt r (ok u, s) g = omega arith
  write-lt r (err d, s) g = omega arith

  abbrev Fewer : Group R S → Group R S → Type 0
  Fewer g h = steps_left h < steps_left g

  Step-Fewer : {g h : Group R S} → Step job g h → Fewer g h
  unfolding check_response fail
  Step-Fewer {g = g} (check r e d) =
      subst (Fewer g) (sym d) (check-lt r (job.accept r g.shared) g e)
  Step-Fewer {g = g} (send r e b d) = subst (Fewer g) (sym d) (
      omega (
        arith,
        receive-lt g.stream (record g { channel = g.channel ++ r ∷ [] }) refl,
        ap work_left e,
        length-append {0} g.channel (r ∷ []),
      ))
  Step-Fewer {g = g} (stop r e b d) = subst (Fewer g) (sym d) (omega (arith, ap work_left e))
  Step-Fewer {g = g} (take r rest idle e i d) =
      subst (Fewer g) (sym d) (omega (arith, ap length e, i))
  Step-Fewer {g = g} (write before r after e d) = subst (Fewer g) (sym d) (
      omega (
        arith,
        write-lt r (job.write r g.shared) (record g { busy = before ++ after }),
        ap length e,
        length-append {0} before (r ∷ after),
        length-append {0} before after,
      ))
  Step-Fewer {g = g} (leave idle i e s d) = subst (Fewer g) (sym d) (omega (arith, i))
  Step-Fewer {g = g} (quit idle i b d) = subst (Fewer g) (sym d) (omega (arith, i))

  bound_on_steps :
      {g : Group R S} {n : ℕ} {h : Group R S} → Run job g n h → n + steps_left h ≤ steps_left g
  bound_on_steps here = omega arith
  bound_on_steps (next r s) = omega (arith, bound_on_steps r, Step-Fewer s)

  abbrev pub CanStep : Group R S → Type 0
  CanStep g = (h : Group R S) × Step job g h

  -- A worker that waits takes a response, or one that is busy goes on.
  work-CanStep :
      (g : Group R S) (r : R) (rest : List R)
      → g.channel ≡ r ∷ rest
      → 1 ≤ g.idle + length g.busy
      → CanStep g
  work-CanStep g r rest e b = elim (ℕ-cases g.idle) [
    | inr (k, i) ↦ (_, take r rest k e i refl)
    | inl i ↦ elim (List-cases g.busy) [
      | inr (x, xs, z) ↦ (_, write [] x xs z refl)
      | inl z ↦ absurd (omega (arith, i, ap length z, b))
    ]
  ]

  send-CanStep :
      (workers : ℕ) (g : Group R S) (r : R)
      → 1 ≤ workers
      → 1 ≤ job.capacity
      → g.receiver ≡ sending r
      → Staffed workers g
      → CanStep g
  send-CanStep workers g r b c e v = elim (Bool-cases (ltb (length g.channel) job.capacity)) [
    | inl room ↦ (_, send r e (ground arith) refl)
    | inr full ↦ elim v [
      | inr (inl (q, z)) ↦ absurd (cc (e, q))
      | inr (inr k) ↦ (_, stop r e k refl)
      | inl a ↦ elim (List-cases g.channel) [
        | inr (x, xs, z) ↦ work-CanStep g x xs z (omega (arith, a, b))
        | inl z ↦ absurd (ground (arith, ap length z))
      ]
    ]
  ]

  stopped-CanStep : (g : Group R S) → g.receiver ≡ stopped → IsFinished g ⊎ CanStep g
  stopped-CanStep g e = elim (ℕ-cases g.idle) [
    | inr (k, i) ↦ elim (List-cases g.channel) [
      | inl z ↦ inr (_, leave k i z e refl)
      | inr (x, xs, z) ↦ inr (_, take x xs k z i refl)
    ]
    | inl i ↦ elim (List-cases g.busy) [
      | inl z ↦ inl (record { receiver = e; idle = i; busy = z })
      | inr (x, xs, z) ↦ inr (_, write [] x xs z refl)
    ]
  ]

  goes_on :
      (workers : ℕ) (g : Group R S)
      → 1 ≤ workers
      → 1 ≤ job.capacity
      → IsSteady workers g
      → IsFinished g ⊎ CanStep g
  goes_on workers g b c v = elim (Receiver-cases g.receiver) [
    | inl (r, e) ↦ inr (_, check r e refl)
    | inr (inl (r, e)) ↦ inr (send-CanStep workers g r b c e v.staffed)
    | inr (inr e) ↦ stopped-CanStep g e
  ]

  Run-IsSteady :
      (workers : ℕ) {g : Group R S} {n : ℕ} {h : Group R S}
      → Run job g n h
      → IsSteady workers g
      → IsSteady workers h
  Run-IsSteady workers here v = v
  Run-IsSteady workers (next r s) v = Step-IsSteady job workers s (Run-IsSteady workers r v)

  Run-Loads :
      (weight : R → ℕ) (workers k : ℕ) {g : Group R S} {n : ℕ} {h : Group R S}
      → Run job g n h
      → IsSteady workers g
      → Loads job weight k g
      → Loads job weight k h
  Run-Loads weight workers k here v l = l
  Run-Loads weight workers k (next r s) v l =
      Step-Loads job weight k (Run-IsSteady workers r v).fails s (Run-Loads weight workers k r v l)

  start-IsSteady :
      (first : R) (rest : List R) (end : Result (Unit {0})) (workers : ℕ) (s : S)
      → IsSteady workers (start first rest end workers s)
  start-IsSteady first rest end workers s = record {
    fails = λ b. cc;
    ended = λ q h. cc;
    staffed = inl (omega arith);
  }

  -- If there is a worker and the goroutines all return without an error, then each response of the
  -- stream was written exactly as often as it was received, in whatever order they ran.
  pub written_lem :
      (first : R) (rest : List R) (end : Result (Unit {0})) (workers : ℕ) (s : S) {n : ℕ}
      {h : Group R S}
      → 1 ≤ workers
      → Run job (start first rest end workers s) n h
      → IsFinished h
      → h.error ≡ none
      → SameItems h.written (first ∷ rest)
  unfolding total
  written_lem first rest end workers s {h = h} b r f o weight =
      let v = Run-IsSteady workers r (start-IsSteady first rest end workers s) in
      let all = total weight (first ∷ rest) in
      let k =
        Run-Loads weight workers all r (start-IsSteady first rest end workers s) (λ _. omega arith)
          o in
      let c : h.channel ≡ [] = elim v.staffed [
        | inl a ↦ absurd (omega (arith, a, b, f.idle, ap length f.busy))
        | inr (inl (q, z)) ↦ z
        | inr (inr d) ↦ absurd (v.fails d o)
      ] in
      omega (
        arith,
        k,
        ap (total weight) c,
        ap (total weight) (v.ended f.receiver o).0,
        ap (total weight) f.busy,
        ap (held weight) f.receiver,
      )

  -- With a worker and a channel that buffers, the goroutines never wait for each other for ever:
  -- each run has at most five steps for a further response, four for the first and one for each
  -- worker, and as long as one of them has not returned, one of them can go on.
  pub goroutines_end :
      (first : R) (rest : List R) (end : Result (Unit {0})) (workers : ℕ) (s : S) {n : ℕ}
      {h : Group R S}
      → 1 ≤ workers
      → 1 ≤ job.capacity
      → Run job (start first rest end workers s) n h
      → (n ≤ 5 * length rest + 4 + workers) × (IsFinished h ⊎ CanStep h)
  goroutines_end first rest end workers s {h = h} b c r = (
    omega (arith, bound_on_steps r),
    goes_on workers h b c (Run-IsSteady workers r (start-IsSteady first rest end workers s)),
  )
