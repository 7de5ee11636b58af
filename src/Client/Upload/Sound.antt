-- ===== src/Client/Upload/Sound.antt =====
-- What every run of Update's goroutines keeps: an error is recorded with each cancellation, and the
-- sender returns without an error only when it has sent all objects and has the server's answer.
use dateilager.Prelude.{
  ℕ, ◌≡◌, ◌≢◌, refl, sym, subst, Bool, true, false, Option, none, some, List, ◌++◌, length, ℤ,
}
use dateilager.Result.{Error, Result, ok, err, panic}
use dateilager.Db.Update.{Object}
use dateilager.Client.Group.Kept.{first_error-ne-none}
use dateilager.Client.Upload.{
  Change, Outlet, Sender, receiving, returned, Upload, begin, abort, after_read, after_look,
  after_connect, after_send, after_close,
}
use dateilager.Client.Upload.Steps.{
  Move, take, read_change, look, put, drop_object, leave, quit, connect, send, finish, stop, Trace,
  here, next,
}

module _ (outlet : Outlet) (count : ℕ) where
  pub record IsSound (g : Upload) : Type 0 where
    pub fails : g.is_cancelled ≡ true → g.error ≢ none
    pub closed :
        g.sender ≡ returned
        → g.error ≡ none
        → (length g.sent ≡ count) × (outlet.close_and_recv g.sent ≡ ok g.to_version)

  abort-IsSound : (e : Error) (g : Upload) → IsSound (abort e g)
  unfolding abort
  abort-IsSound e g = record {
    fails = λ _. first_error-ne-none g.error e;
    closed = λ q h. absurd (first_error-ne-none g.error e h);
  }

  receiving-ne-returned : {x : Sender} → x ≡ receiving → x ≢ returned
  receiving-ne-returned e q = cc

  after_read-IsSound :
      (b : Bool) (x : Result Object) (g : Upload) → IsSound g → IsSound (after_read b x g)
  after_read-IsSound true (ok object) g v = record { fails = v.fails; closed = v.closed }
  after_read-IsSound false (ok object) g v = record { fails = v.fails; closed = v.closed }
  after_read-IsSound true (err e) g v = record { fails = v.fails; closed = v.closed }
  after_read-IsSound false (err e) g v = record { fails = v.fails; closed = v.closed }

  after_look-IsSound :
      (object : Option Object) (x : Option Error) (g : Upload)
      → IsSound g
      → IsSound (after_look object x g)
  after_look-IsSound object none g v = record { fails = v.fails; closed = v.closed }
  after_look-IsSound object (some e) g v = abort-IsSound e g

  after_connect-IsSound :
      (x : Result (Unit {0})) (g : Upload) → IsSound g → IsSound (after_connect x g)
  after_connect-IsSound (ok u) g v = record { fails = v.fails; closed = λ q h. cc }
  after_connect-IsSound (err e) g v = abort-IsSound e (record g { sender = returned })

  after_send-IsSound :
      (object : Option Object) (x : Result (Unit {0})) (g : Upload)
      → g.sender ≡ receiving
      → IsSound g
      → IsSound (after_send object x g)
  after_send-IsSound object (ok u) g s v = record {
    fails = v.fails;
    closed = λ q h. absurd (receiving-ne-returned s q);
  }
  after_send-IsSound (some object) (err e) g s v = abort-IsSound e (record g { sender = returned })
  after_send-IsSound none (err e) g s v = abort-IsSound panic (record g { sender = returned })

  after_close-IsSound :
      (x : Result ℤ) (g : Upload)
      → length g.sent ≡ count
      → outlet.close_and_recv g.sent ≡ x
      → IsSound g
      → IsSound (after_close x g)
  after_close-IsSound (ok version) g l e v = record { fails = v.fails; closed = λ q h. (l, e) }
  after_close-IsSound (err d) g l e v = abort-IsSound d (record g { sender = returned })

  Move-IsSound :
      (read : Change → Result Object) {g h : Upload}
      → Move read outlet count g h
      → IsSound g
      → IsSound h
  Move-IsSound read {g = g} (take change rest idle i e d) v =
      subst IsSound (sym d) (record { fails = v.fails; closed = v.closed })
  Move-IsSound read {g = g} (read_change before change after e d) v = subst IsSound (sym d) (
      after_read-IsSound change.is_removal (read change) (record g { reading = before ++ after })
        (record { fails = v.fails; closed = v.closed }))
  Move-IsSound read {g = g} (look before object after e d) v = subst IsSound (sym d) (
      after_look-IsSound object g.shared_error (record g { checking = before ++ after })
        (record { fails = v.fails; closed = v.closed }))
  Move-IsSound read {g = g} (put before object after e b d) v =
      subst IsSound (sym d) (record { fails = v.fails; closed = v.closed })
  Move-IsSound read {g = g} (drop_object before object after e b d) v =
      subst IsSound (sym d) (record { fails = v.fails; closed = v.closed })
  Move-IsSound read {g = g} (leave idle i e d) v =
      subst IsSound (sym d) (record { fails = v.fails; closed = v.closed })
  Move-IsSound read {g = g} (quit idle i b d) v =
      subst IsSound (sym d) (record { fails = v.fails; closed = v.closed })
  Move-IsSound read {g = g} (connect e d) v =
      subst IsSound (sym d) (after_connect-IsSound outlet.connect g v)
  Move-IsSound read {g = g} (send object rest q e d) v = subst IsSound (sym d) (
      after_send-IsSound object (outlet.send g.sent object) (record g { channel = rest }) q
        (record { fails = v.fails; closed = v.closed }))
  Move-IsSound read {g = g} (finish q l e d) v =
      subst IsSound (sym d) (after_close-IsSound (outlet.close_and_recv g.sent) g l refl v)
  Move-IsSound read {g = g} (stop q b d) v =
      subst IsSound (sym d) (record { fails = v.fails; closed = λ k h. absurd (v.fails b h) })

  pub Trace-IsSound :
      (read : Change → Result Object) {g : Upload} {n : ℕ} {h : Upload}
      → Trace read outlet count g n h
      → IsSound g
      → IsSound h
  Trace-IsSound read here v = v
  Trace-IsSound read (next r s) v = Move-IsSound read s (Trace-IsSound read r v)

  pub begin-IsSound : (changes : List Change) (workers : ℕ) → IsSound (begin changes workers)
  begin-IsSound changes workers = record { fails = λ b. cc; closed = λ q h. cc }
