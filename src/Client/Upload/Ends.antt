-- ===== src/Client/Upload/Ends.antt =====
-- Every run of Update's goroutines ends.
use dateilager.Prelude.{
  ℕ, suc, ◌+◌, ◌*◌, ◌≤◌, ◌<◌, ◌≡◌, ◌≢◌, refl, ap, sym, subst, ◌⊎◌, inl, inr, Bool, Bool-cases, true,
  false, Option, none, some, ltb, List, [], ◌∷◌, ◌++◌, length, length-append, ℤ, arith,
}
use dateilager.Result.{Error, Result, ok, err}
use dateilager.Db.Update.{Object}
use dateilager.Client.Group.Kept.{total}
use dateilager.Client.Group.Ends.{List-cases, ℕ-cases}
use dateilager.Client.Upload.{
  Change, Outlet, Sender, connecting, receiving, returned, Upload, begin, abort, after_read,
  after_look, after_connect, after_send, after_close, IsDone,
}
use dateilager.Client.Upload.Steps.{
  Move, take, read_change, look, put, drop_object, leave, quit, connect, send, finish, stop, Trace,
  here, next,
}
use dateilager.Client.Upload.Kept.{Carries}
use dateilager.Client.Upload.Manned.{IsManned, Trace-IsManned, begin-IsManned}
use dateilager.Client.Upload.Sound.{IsSound, Trace-IsSound, begin-IsSound}
use dateilager.Client.Upload.Sent.{one, total-one, Trace-Carries}

abbrev sender_steps : Sender → ℕ
sender_steps connecting = 2
sender_steps receiving = 1
sender_steps returned = 0

Sender-cases : (x : Sender) → (x ≡ connecting) ⊎ ((x ≡ receiving) ⊎ (x ≡ returned))
Sender-cases connecting = inl refl
Sender-cases receiving = inr (inl refl)
Sender-cases returned = inr (inr refl)

-- What is left to do at most, in steps.
abbrev moves_left : Upload → ℕ
moves_left g =
    5 * length g.changes
    + 5 * length g.reading
    + 4 * length g.checking
    + 3 * length g.holding
    + length g.channel
    + g.idle
    + sender_steps g.sender

module _ (read : Change → Result Object) (outlet : Outlet) (count : ℕ) where
  read-lt :
      (b : Bool) (x : Result Object) (g : Upload) → moves_left (after_read b x g) ≤ moves_left g + 4
  read-lt true (ok object) g = omega arith
  read-lt false (ok object) g = omega arith
  read-lt true (err e) g = omega arith
  read-lt false (err e) g = omega arith

  look-lt :
      (object : Option Object) (x : Option Error) (g : Upload)
      → moves_left (after_look object x g) ≤ moves_left g + 3
  unfolding abort
  look-lt object none g = omega arith
  look-lt object (some e) g = omega arith

  connect-lt :
      (x : Result (Unit {0})) (g : Upload)
      → g.sender ≡ connecting
      → moves_left (after_connect x g) < moves_left g
  unfolding abort
  connect-lt (ok u) g e = omega (arith, ap sender_steps e)
  connect-lt (err d) g e = omega (arith, ap sender_steps e)

  send-le :
      (object : Option Object) (x : Result (Unit {0})) (g : Upload)
      → moves_left (after_send object x g) ≤ moves_left g
  unfolding abort
  send-le object (ok u) g = omega arith
  send-le (some object) (err d) g = omega arith
  send-le none (err d) g = omega arith

  close-lt :
      (x : Result ℤ) (g : Upload)
      → g.sender ≡ receiving
      → moves_left (after_close x g) < moves_left g
  unfolding abort
  close-lt (ok v) g e = omega (arith, ap sender_steps e)
  close-lt (err d) g e = omega (arith, ap sender_steps e)

  abbrev Fewer : Upload → Upload → Type 0
  Fewer g h = moves_left h < moves_left g

  Move-Fewer : {g h : Upload} → Move read outlet count g h → Fewer g h
  Move-Fewer {g = g} (take change rest idle i e d) =
      subst (Fewer g) (sym d) (omega (arith, i, ap length e))
  Move-Fewer {g = g} (read_change before change after e d) = subst (Fewer g) (sym d) (
      omega (
        arith,
        read-lt change.is_removal (read change) (record g { reading = before ++ after }),
        ap length e,
        length-append {0} before (change ∷ after),
        length-append {0} before after,
      ))
  Move-Fewer {g = g} (look before object after e d) = subst (Fewer g) (sym d) (
      omega (
        arith,
        look-lt object g.shared_error (record g { checking = before ++ after }),
        ap length e,
        length-append {0} before (object ∷ after),
        length-append {0} before after,
      ))
  Move-Fewer {g = g} (put before object after e b d) = subst (Fewer g) (sym d) (
      omega (
        arith,
        ap length e,
        length-append {0} before (object ∷ after),
        length-append {0} before after,
        length-append {0} g.channel (object ∷ []),
      ))
  Move-Fewer {g = g} (drop_object before object after e b d) = subst (Fewer g) (sym d) (
      omega (
        arith,
        ap length e,
        length-append {0} before (object ∷ after),
        length-append {0} before after,
      ))
  Move-Fewer {g = g} (leave idle i e d) = subst (Fewer g) (sym d) (omega (arith, i))
  Move-Fewer {g = g} (quit idle i b d) = subst (Fewer g) (sym d) (omega (arith, i))
  Move-Fewer {g = g} (connect e d) = subst (Fewer g) (sym d) (connect-lt outlet.connect g e)
  Move-Fewer {g = g} (send object rest q e d) = subst (Fewer g) (sym d) (
      omega (
        arith,
        send-le object (outlet.send g.sent object) (record g { channel = rest }),
        ap length e,
      ))
  Move-Fewer {g = g} (finish q l e d) =
      subst (Fewer g) (sym d) (close-lt (outlet.close_and_recv g.sent) g q)
  Move-Fewer {g = g} (stop q b d) = subst (Fewer g) (sym d) (omega (arith, ap sender_steps q))

  bound_on_moves :
      {g : Upload} {n : ℕ} {h : Upload}
      → Trace read outlet count g n h
      → n + moves_left h ≤ moves_left g
  bound_on_moves here = omega arith
  bound_on_moves (next r s) = omega (arith, bound_on_moves r, Move-Fewer s)

  abbrev pub CanMove : Upload → Type 0
  CanMove g = (h : Upload) × Move read outlet count g h

  -- The sender goes on if no worker holds an object.
  sender-CanMove :
      (workers : ℕ) (g : Upload)
      → 1 ≤ workers
      → g.idle ≡ 0
      → g.reading ≡ []
      → g.checking ≡ []
      → g.holding ≡ []
      → g.sender ≡ receiving
      → IsManned workers g
      → Carries one one count g
      → CanMove g
  unfolding total
  sender-CanMove workers g b i r q h s m k = elim (Bool-cases g.is_cancelled) [
    | inl c ↦ (_, stop s c refl)
    | inr c ↦ elim (List-cases g.channel) [
      | inr (object, rest, e) ↦ (_, send object rest s e refl)
      | inl e ↦
          let burden = k (m.untroubled c) in
          elim m.manned [
            | inl a ↦ absurd (omega (arith, a, b, i, ap length r, ap length q, ap length h))
            | inr (inr z) ↦ absurd (cc (z, c))
            | inr (inl z) ↦ (
              _,
              finish s
                  (omega (
                    arith,
                    burden,
                    ap (total one) z,
                    ap (total one) r,
                    ap (total one) q,
                    ap (total one) h,
                    ap (total one) e,
                    total-one g.sent,
                  ))
                  e refl,
            )
          ]
    ]
  ]

  -- A worker that holds an object goes on, or the sender, where the channel is full.
  holding-CanMove :
      (g : Upload) (object : Option Object) (rest : List (Option Object))
      → g.holding ≡ object ∷ rest
      → g.sender ≢ connecting
      → IsSound outlet count g
      → (workers : ℕ) → IsManned workers g
      → Carries one one count g
      → CanMove g
  unfolding total
  holding-CanMove g object rest e n v workers m k = elim (Bool-cases g.is_cancelled) [
    | inl c ↦ (_, drop_object [] object rest e c refl)
    | inr c ↦ elim (Bool-cases (ltb (length g.channel) 32)) [
      | inl room ↦ (_, put [] object rest e (ground arith) refl)
      | inr full ↦ elim (Sender-cases g.sender) [
        | inl s ↦ absurd (n s)
        | inr (inr s) ↦
            let o = m.untroubled c in
            absurd (omega (arith, k o, (v.closed s o).0, ap (total one) e, total-one g.sent))
        | inr (inl s) ↦ elim (List-cases g.channel) [
          | inr (first, others, z) ↦ (_, send first others s z refl)
          | inl z ↦ absurd (ground (arith, ap length z))
        ]
      ]
    ]
  ]

  idle-CanMove : (g : Upload) (idle : ℕ) → g.idle ≡ suc idle → CanMove g
  idle-CanMove g idle i = elim (List-cases g.changes) [
    | inl z ↦ (_, leave idle i z refl)
    | inr (change, rest, e) ↦ (_, take change rest idle i e refl)
  ]

  goes_on :
      (workers : ℕ) (g : Upload)
      → 1 ≤ workers
      → IsSound outlet count g
      → IsManned workers g
      → Carries one one count g
      → IsDone g ⊎ CanMove g
  goes_on workers g b v m k = elim (Sender-cases g.sender) [
    | inl s ↦ inr (_, connect s refl)
    | inr started ↦ elim (List-cases g.reading) [
      | inr (change, rest, e) ↦ inr (_, read_change [] change rest e refl)
      | inl r ↦ elim (List-cases g.checking) [
        | inr (object, rest, e) ↦ inr (_, look [] object rest e refl)
        | inl q ↦ elim (List-cases g.holding) [
          | inr (object, rest, e) ↦ inr (
              holding-CanMove g object rest e
                (elim started [ inl s ↦ (λ z. cc (s, z)) | inr s ↦ (λ z. cc (s, z)) ]) v workers m
                k)
          | inl h ↦ elim (ℕ-cases g.idle) [
            | inr (idle, i) ↦ inr (idle-CanMove g idle i)
            | inl i ↦ elim started [
              | inl s ↦ inr (sender-CanMove workers g b i r q h s m k)
              | inr s ↦
                  inl (record { sender = s; idle = i; reading = r; checking = q; holding = h })
            ]
          ]
        ]
      ]
    ]
  ]

-- With a worker, the goroutines of Update never wait for each other for ever: each run has at most
-- five steps for a change, one for each worker and two more, and as long as one of them has not
-- returned, one of them can go on.
pub moves_end :
    (read : Change → Result Object) (outlet : Outlet) (changes : List Change) (workers : ℕ) {n : ℕ}
    {h : Upload}
    → 1 ≤ workers
    → Trace read outlet (length changes) (begin changes workers) n h
    → (n ≤ 5 * length changes + workers + 2) × (IsDone h ⊎ CanMove read outlet (length changes) h)
unfolding total
moves_end read outlet changes workers {h = h} b r =
    let count = length changes in
    let v = begin-IsSound outlet count changes workers in
    (
      omega (arith, bound_on_moves read outlet count r),
      goes_on read outlet count workers h b (Trace-IsSound outlet count read r v)
          (Trace-IsManned workers read outlet count r (begin-IsManned workers changes))
          (Trace-Carries read outlet count one one count (λ c. refl) r v
            (λ _. omega (arith, total-one changes))),
    )
