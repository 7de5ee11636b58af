-- ===== src/Client/Upload/Sent.antt =====
-- A run of Update's goroutines without an error has sent one message for each change.
use dateilager.Prelude.{ℕ, ◌+◌, ◌≡◌, refl, Option, none, List, [], ◌∷◌, map, length, arith}
use dateilager.Result.{Result, ok}
use dateilager.Db.Update.{Object}
use dateilager.Client.Group.Kept.{total, SameItems}
use dateilager.Client.Upload.{Change, Outlet, returned, Upload, begin}
use dateilager.Client.Upload.Steps.{Trace, here, next}
use dateilager.Client.Upload.Kept.{object_or_nil, Carries, Move-Carries}
use dateilager.Client.Upload.Sound.{IsSound, Trace-IsSound, begin-IsSound}

abbrev pub one : {A : Type 0} → A → ℕ
one x = 1

pub total-one : {A : Type 0} (xs : List A) → total one xs ≡ length xs
unfolding total
total-one [] = refl
total-one (x ∷ xs) = omega (arith, total-one xs)

emptied : {A : Type 0} (weight : A → ℕ) (xs : List A) → length xs ≡ 0 → total weight xs ≡ 0
unfolding total
emptied weight [] e = refl
emptied weight (x ∷ xs) e = absurd (omega (arith, e))

module _ (read : Change → Result Object) where
  -- The message for a change, and all messages, in the order of the changes.
  abbrev pub message : Change → Option Object
  message change = object_or_nil (read change)

  total-map :
      (mass : Option Object → ℕ) (changes : List Change)
      → total (λ change. mass (message change)) changes ≡ total mass (map message changes)
  unfolding total
  total-map mass [] = refl
  total-map mass (change ∷ changes) = omega (arith, total-map mass changes)

  module _ (outlet : Outlet) (count : ℕ) where
    pub Trace-Carries :
        (weight : Change → ℕ) (mass : Option Object → ℕ) (k : ℕ) {g : Upload} {n : ℕ} {h : Upload}
        → ((change : Change) → mass (message change) ≡ weight change)
        → Trace read outlet count g n h
        → IsSound outlet count g
        → Carries weight mass k g
        → Carries weight mass k h
    Trace-Carries weight mass k m here v c = c
    Trace-Carries weight mass k m (next r s) v c =
        Move-Carries weight mass read outlet count k m (Trace-IsSound outlet count read r v).fails s
          (Trace-Carries weight mass k m r v c)

  -- If the sender of Update has returned and no goroutine has failed, then one message for each
  -- change was sent, in whatever order the goroutines ran: its object, or nil if it could not be
  -- read; the new version is the server's answer to these.
  pub sent_lem :
      (outlet : Outlet) (changes : List Change) (workers : ℕ) {n : ℕ} {g : Upload}
      → Trace read outlet (length changes) (begin changes workers) n g
      → g.sender ≡ returned
      → g.error ≡ none
      → SameItems g.sent (map message changes) × (outlet.close_and_recv g.sent ≡ ok g.to_version)
  unfolding total
  sent_lem outlet changes workers {g = g} r s o =
      let count = length changes in
      let v = begin-IsSound outlet count changes workers in
      let (l, answer) = (Trace-IsSound outlet count read r v).closed s o in
      let kept : Carries one one (total one changes) g =
        Trace-Carries outlet count one one (total one changes) (λ c. refl) r v (λ _. omega arith) in
      let empty : length g.changes
            + length g.reading
            + length g.checking
            + length g.holding
            + length g.channel
          ≡ 0 =
        omega (
          arith,
          kept o,
          l,
          total-one changes,
          total-one g.changes,
          total-one g.reading,
          total-one g.checking,
          total-one g.holding,
          total-one g.channel,
          total-one g.sent,
        ) in
      (
        λ mass. omega (
          arith,
          total-map mass changes,
          Trace-Carries outlet count (λ c. mass (message c)) mass
              (total (λ c. mass (message c)) changes) (λ c. refl) r v (λ _. omega arith) o,
          emptied (λ c. mass (message c)) g.changes (omega (arith, empty)),
          emptied (λ c. mass (message c)) g.reading (omega (arith, empty)),
          emptied mass g.checking (omega (arith, empty)),
          emptied mass g.holding (omega (arith, empty)),
          emptied mass g.channel (omega (arith, empty)),
        ),
        answer,
      )
