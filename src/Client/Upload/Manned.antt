-- ===== src/Client/Upload/Manned.antt =====
-- What every run of Update's goroutines keeps so that it can go on: workers leave when no change is
-- left, or when the group was cancelled, and it was if there is an error.
use dateilager.Prelude.{
  ℕ, suc, ◌+◌, ◌≡◌, refl, ap, sym, subst, ◌∙◌, ◌⊎◌, inl, inr, Bool, true, false, Option, none, some,
  List, [], ◌∷◌, ◌++◌, length, length-append, ℤ, arith,
}
use dateilager.Result.{Error, Result, ok, err, panic}
use dateilager.Db.Update.{Object}
use dateilager.Client.Upload.{
  Change, Outlet, returned, receiving, Upload, begin, abort, after_read, after_look, after_connect,
  after_send, after_close,
}
use dateilager.Client.Upload.Steps.{
  Move, take, read_change, look, put, drop_object, leave, quit, connect, send, finish, stop, Trace,
  here, next,
}

abbrev pub Manned : ℕ → Upload → Type 0
Manned workers g =
    (g.idle + length g.reading + length g.checking + length g.holding ≡ workers)
    ⊎ ((g.changes ≡ []) ⊎ (g.is_cancelled ≡ true))

pub record IsManned (workers : ℕ) (g : Upload) : Type 0 where
  pub manned : Manned workers g
  pub untroubled : g.is_cancelled ≡ false → g.error ≡ none

module _ (workers : ℕ) where
  abort-IsManned : (e : Error) (g : Upload) → IsManned workers (abort e g)
  unfolding abort
  abort-IsManned e g = record { manned = inr (inr refl); untroubled = λ c. cc }

  -- A step that moves changes, objects and workers.
  moved :
      (g h : Upload)
      → h.idle + length h.reading + length h.checking + length h.holding
        ≡ g.idle + length g.reading + length g.checking + length g.holding
      → (g.changes ≡ [] → h.changes ≡ [])
      → h.is_cancelled ≡ g.is_cancelled
      → h.error ≡ g.error
      → IsManned workers g
      → IsManned workers h
  moved g h n z c o v = record {
    manned = elim v.manned [
      | inl a ↦ inl (n ∙ a)
      | inr (inl e) ↦ inr (inl (z e))
      | inr (inr k) ↦ inr (inr (c ∙ k))
    ];
    untroubled = λ k. o ∙ v.untroubled (sym c ∙ k);
  }

  after_read-IsManned :
      (b : Bool) (x : Result Object) (g f : Upload)
      → suc (g.idle + length g.reading + length g.checking + length g.holding)
        ≡ f.idle + length f.reading + length f.checking + length f.holding
      → f.changes ≡ g.changes
      → f.is_cancelled ≡ g.is_cancelled
      → f.error ≡ g.error
      → IsManned workers f
      → IsManned workers (after_read b x g)
  after_read-IsManned true (ok object) g f n z c o v =
      moved f (after_read true (ok object) g) (omega (arith, n)) (λ e. sym z ∙ e) (sym c) (sym o) v
  after_read-IsManned false (ok object) g f n z c o v =
      moved f (after_read false (ok object) g) (omega (arith, n)) (λ e. sym z ∙ e) (sym c) (sym o) v
  after_read-IsManned true (err e) g f n z c o v =
      moved f (after_read true (err e) g) (omega (arith, n)) (λ e. sym z ∙ e) (sym c) (sym o) v
  after_read-IsManned false (err e) g f n z c o v =
      moved f (after_read false (err e) g) (omega (arith, n)) (λ e. sym z ∙ e) (sym c) (sym o) v

  after_look-IsManned :
      (object : Option Object) (x : Option Error) (g f : Upload)
      → suc (g.idle + length g.reading + length g.checking + length g.holding)
        ≡ f.idle + length f.reading + length f.checking + length f.holding
      → f.changes ≡ g.changes
      → f.is_cancelled ≡ g.is_cancelled
      → f.error ≡ g.error
      → IsManned workers f
      → IsManned workers (after_look object x g)
  after_look-IsManned object none g f n z c o v =
      moved f (record g { holding = object ∷ g.holding }) (omega (arith, n)) (λ e. sym z ∙ e)
        (sym c) (sym o) v
  after_look-IsManned object (some e) g f n z c o v = abort-IsManned e g

  after_connect-IsManned :
      (x : Result (Unit {0})) (g : Upload)
      → IsManned workers g
      → IsManned workers (after_connect x g)
  after_connect-IsManned (ok u) g v =
      moved g (record g { sender = receiving }) refl (λ e. e) refl refl v
  after_connect-IsManned (err e) g v = abort-IsManned e (record g { sender = returned })

  after_send-IsManned :
      (object : Option Object) (x : Result (Unit {0})) (g : Upload)
      → IsManned workers g
      → IsManned workers (after_send object x g)
  after_send-IsManned object (ok u) g v =
      moved g (record g { sent = g.sent ++ object ∷ [] }) refl (λ e. e) refl refl v
  after_send-IsManned (some object) (err e) g v = abort-IsManned e (record g { sender = returned })
  after_send-IsManned none (err e) g v = abort-IsManned panic (record g { sender = returned })

  after_close-IsManned :
      (x : Result ℤ) (g : Upload) → IsManned workers g → IsManned workers (after_close x g)
  after_close-IsManned (ok version) g v =
      moved g (record g { sender = returned; to_version = version }) refl (λ e. e) refl refl v
  after_close-IsManned (err e) g v = abort-IsManned e (record g { sender = returned })

  Move-IsManned :
      (read : Change → Result Object) (outlet : Outlet) (count : ℕ) {g h : Upload}
      → Move read outlet count g h
      → IsManned workers g
      → IsManned workers h
  Move-IsManned read outlet count {g = g} (take change rest idle i e d) v =
      subst (IsManned workers) (sym d) (
        moved g (record g { changes = rest; reading = change ∷ g.reading; idle = idle })
          (omega (arith, i)) (λ z. absurd (cc (z, e))) refl refl v)
  Move-IsManned read outlet count {g = g} (read_change before change after e d) v =
      subst (IsManned workers) (sym d) (
        after_read-IsManned change.is_removal (read change) (record g { reading = before ++ after })
          g
          (omega (
            arith,
            ap length e,
            length-append {0} before (change ∷ after),
            length-append {0} before after,
          ))
          refl refl refl v)
  Move-IsManned read outlet count {g = g} (look before object after e d) v =
      subst (IsManned workers) (sym d) (
        after_look-IsManned object g.shared_error (record g { checking = before ++ after }) g
          (omega (
            arith,
            ap length e,
            length-append {0} before (object ∷ after),
            length-append {0} before after,
          ))
          refl refl refl v)
  Move-IsManned read outlet count {g = g} (put before object after e b d) v =
      subst (IsManned workers) (sym d) (
        moved g
          (record g {
            holding = before ++ after;
            channel = g.channel ++ object ∷ [];
            idle = suc g.idle;
          })
          (omega (
            arith,
            ap length e,
            length-append {0} before (object ∷ after),
            length-append {0} before after,
          ))
          (λ z. z) refl refl v)
  Move-IsManned read outlet count {g = g} (drop_object before object after e b d) v =
      subst (IsManned workers) (sym d) (record { manned = inr (inr b); untroubled = v.untroubled })
  Move-IsManned read outlet count {g = g} (leave idle i e d) v =
      subst (IsManned workers) (sym d) (record { manned = inr (inl e); untroubled = v.untroubled })
  Move-IsManned read outlet count {g = g} (quit idle i b d) v =
      subst (IsManned workers) (sym d) (record { manned = inr (inr b); untroubled = v.untroubled })
  Move-IsManned read outlet count {g = g} (connect e d) v =
      subst (IsManned workers) (sym d) (after_connect-IsManned outlet.connect g v)
  Move-IsManned read outlet count {g = g} (send object rest q e d) v =
      subst (IsManned workers) (sym d) (
        after_send-IsManned object (outlet.send g.sent object) (record g { channel = rest })
          (moved g (record g { channel = rest }) refl (λ z. z) refl refl v))
  Move-IsManned read outlet count {g = g} (finish q l e d) v =
      subst (IsManned workers) (sym d) (after_close-IsManned (outlet.close_and_recv g.sent) g v)
  Move-IsManned read outlet count {g = g} (stop q b d) v =
      subst (IsManned workers) (sym d)
        (moved g (record g { sender = returned }) refl (λ z. z) refl refl v)

  pub Trace-IsManned :
      (read : Change → Result Object) (outlet : Outlet) (count : ℕ) {g : Upload} {n : ℕ}
      {h : Upload}
      → Trace read outlet count g n h
      → IsManned workers g
      → IsManned workers h
  Trace-IsManned read outlet count here v = v
  Trace-IsManned read outlet count (next r s) v =
      Move-IsManned read outlet count s (Trace-IsManned read outlet count r v)

  pub begin-IsManned : (changes : List Change) → IsManned workers (begin changes workers)
  begin-IsManned changes = record { manned = inl (omega arith); untroubled = λ c. refl }
