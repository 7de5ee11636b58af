-- ===== src/Client/Upload/Kept.antt =====
-- What the steps of Update keep: no change is lost or sent twice unless a goroutine returns an error.
use dateilager.Prelude.{
  ℕ, ◌+◌, ◌≡◌, ◌≢◌, ap, sym, subst, Bool, true, false, Option, none, some, [], ◌∷◌, ◌++◌, ℤ, arith,
}
use dateilager.Result.{Error, Result, ok, err, panic}
use dateilager.Db.Update.{Object}
use dateilager.Client.Group.Kept.{first_error-ne-none, total, total-append}
use dateilager.Client.Upload.{
  Change, Outlet, Upload, abort, after_read, after_look, after_connect, after_send, after_close,
}
use dateilager.Client.Upload.Steps.{
  Move, take, read_change, look, put, drop_object, leave, quit, connect, send, finish, stop,
}

-- The message for a change: its object, or nil if it could not be read.
abbrev pub object_or_nil : Result Object → Option Object
object_or_nil (ok object) = some object
object_or_nil (err e) = none

module _ (weight : Change → ℕ) (mass : Option Object → ℕ) where
  -- What changes and objects weigh, wherever they are.
  abbrev pub burden : Upload → ℕ
  burden g =
      total weight g.changes
      + total weight g.reading
      + total mass g.checking
      + total mass g.holding
      + total mass g.channel
      + total mass g.sent

  abbrev pub Carries : ℕ → Upload → Type 0
  Carries n g = g.error ≡ none → burden g ≡ n

  after_read-Carries :
      (n : ℕ) (change : Change) (b : Bool) (x : Result Object) (g : Upload)
      → mass (object_or_nil x) ≡ weight change
      → (g.error ≡ none → burden g + weight change ≡ n)
      → Carries n (after_read b x g)
  unfolding total abort
  after_read-Carries n change true (ok object) g m k h = omega (arith, k h, m)
  after_read-Carries n change false (ok object) g m k h = omega (arith, k h, m)
  after_read-Carries n change true (err e) g m k h = omega (arith, k h, m)
  after_read-Carries n change false (err e) g m k h = omega (arith, k h, m)

  after_look-Carries :
      (n : ℕ) (object : Option Object) (x : Option Error) (g : Upload)
      → (g.error ≡ none → burden g + mass object ≡ n)
      → Carries n (after_look object x g)
  unfolding total abort
  after_look-Carries n object none g k h = omega (arith, k h)
  after_look-Carries n object (some e) g k h = absurd (first_error-ne-none g.error e h)

  after_send-Carries :
      (n : ℕ) (object : Option Object) (x : Result (Unit {0})) (g : Upload)
      → (g.error ≡ none → burden g + mass object ≡ n)
      → Carries n (after_send object x g)
  unfolding total abort
  after_send-Carries n object (ok u) g k h =
      omega (arith, k h, total-append mass g.sent (object ∷ []))
  after_send-Carries n (some object) (err e) g k h = absurd (first_error-ne-none g.error e h)
  after_send-Carries n none (err e) g k h = absurd (first_error-ne-none g.error panic h)

  after_connect-Carries :
      (n : ℕ) (x : Result (Unit {0})) (g : Upload) → Carries n g → Carries n (after_connect x g)
  unfolding abort
  after_connect-Carries n (ok u) g k h = k h
  after_connect-Carries n (err e) g k h = absurd (first_error-ne-none g.error e h)

  after_close-Carries :
      (n : ℕ) (x : Result ℤ) (g : Upload) → Carries n g → Carries n (after_close x g)
  unfolding abort
  after_close-Carries n (ok v) g k h = k h
  after_close-Carries n (err e) g k h = absurd (first_error-ne-none g.error e h)

  pub Move-Carries :
      (read : Change → Result Object) (outlet : Outlet) (count n : ℕ) {g h : Upload}
      → ((change : Change) → mass (object_or_nil (read change)) ≡ weight change)
      → (g.is_cancelled ≡ true → g.error ≢ none)
      → Move read outlet count g h
      → Carries n g
      → Carries n h
  unfolding total
  Move-Carries read outlet count n {g = g} m c (take change rest idle i e d) k =
      subst (Carries n) (sym d) (λ h. omega (arith, ap (total weight) e, k h))
  Move-Carries read outlet count n {g = g} m c (read_change before change after e d) k =
      subst (Carries n) (sym d) (
        after_read-Carries n change change.is_removal (read change)
          (record g { reading = before ++ after }) (m change)
          (λ h. omega (
            arith,
            ap (total weight) e,
            k h,
            total-append weight before (change ∷ after),
            total-append weight before after,
          )))
  Move-Carries read outlet count n {g = g} m c (look before object after e d) k =
      subst (Carries n) (sym d) (
        after_look-Carries n object g.shared_error (record g { checking = before ++ after })
          (λ h. omega (
            arith,
            ap (total mass) e,
            k h,
            total-append mass before (object ∷ after),
            total-append mass before after,
          )))
  Move-Carries read outlet count n {g = g} m c (put before object after e b d) k =
      subst (Carries n) (sym d) (λ h. omega (
        arith,
        ap (total mass) e,
        k h,
        total-append mass before (object ∷ after),
        total-append mass before after,
        total-append mass g.channel (object ∷ []),
      ))
  Move-Carries read outlet count n {g = g} m c (drop_object before object after e b d) k =
      subst (Carries n) (sym d) (λ h. absurd (c b h))
  Move-Carries read outlet count n {g = g} m c (leave idle i e d) k = subst (Carries n) (sym d) k
  Move-Carries read outlet count n {g = g} m c (quit idle i b d) k = subst (Carries n) (sym d) k
  Move-Carries read outlet count n {g = g} m c (connect e d) k =
      subst (Carries n) (sym d) (after_connect-Carries n outlet.connect g k)
  Move-Carries read outlet count n {g = g} m c (send object rest q e d) k =
      subst (Carries n) (sym d) (
        after_send-Carries n object (outlet.send g.sent object) (record g { channel = rest })
          (λ h. omega (arith, ap (total mass) e, k h)))
  Move-Carries read outlet count n {g = g} m c (finish q l e d) k =
      subst (Carries n) (sym d) (after_close-Carries n (outlet.close_and_recv g.sent) g k)
  Move-Carries read outlet count n {g = g} m c (stop q b d) k = subst (Carries n) (sym d) k
