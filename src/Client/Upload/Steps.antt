-- ===== src/Client/Upload/Steps.antt =====
-- The steps of the goroutines of Update, and runs of them.
use dateilager.Prelude.{ℕ, suc, ◌<◌, ◌≡◌, true, Option, List, [], ◌∷◌, ◌++◌, length}
use dateilager.Result.{Result}
use dateilager.Db.Update.{Object}
use dateilager.Client.Upload.{
  Change, Outlet, connecting, receiving, returned, Upload, after_read, after_look, after_connect,
  after_send, after_close,
}

-- The number of changes decides when the sender closes the channel of objects.
module _ (read : Change → Result Object) (outlet : Outlet) (count : ℕ) where
  pub data Move (g : Upload) (h : Upload) : Type 0 where
    -- a worker takes a change
    take :
        (change : Change) (rest : List Change) (idle : ℕ)
        → g.idle ≡ suc idle
        → g.changes ≡ change ∷ rest
        → h ≡ record g { changes = rest; reading = change ∷ g.reading; idle = idle }
        → Move g h
    -- it makes an object of it
    read_change :
        (before : List Change) (change : Change) (after : List Change)
        → g.reading ≡ before ++ change ∷ after
        → h ≡ after_read change.is_removal (read change) (record g { reading = before ++ after })
        → Move g h
    -- it looks at err
    look :
        (before : List (Option Object)) (object : Option Object) (after : List (Option Object))
        → g.checking ≡ before ++ object ∷ after
        → h ≡ after_look object g.shared_error (record g { checking = before ++ after })
        → Move g h
    -- it puts the object into the channel
    put :
        (before : List (Option Object)) (object : Option Object) (after : List (Option Object))
        → g.holding ≡ before ++ object ∷ after
        → length g.channel < 32
        → h ≡ record g {
          holding = before ++ after;
          channel = g.channel ++ object ∷ [];
          idle = suc g.idle;
        }
        → Move g h
    -- or it sees that the group was cancelled
    drop_object :
        (before : List (Option Object)) (object : Option Object) (after : List (Option Object))
        → g.holding ≡ before ++ object ∷ after
        → g.is_cancelled ≡ true
        → h ≡ record g { holding = before ++ after }
        → Move g h
    -- a worker finds no change, or sees that the group was cancelled
    leave :
        (idle : ℕ) → g.idle ≡ suc idle → g.changes ≡ [] → h ≡ record g { idle = idle } → Move g h
    quit :
        (idle : ℕ)
        → g.idle ≡ suc idle
        → g.is_cancelled ≡ true
        → h ≡ record g { idle = idle }
        → Move g h
    -- the sender connects
    connect : g.sender ≡ connecting → h ≡ after_connect outlet.connect g → Move g h
    -- it sends an object
    send :
        (object : Option Object) (rest : List (Option Object))
        → g.sender ≡ receiving
        → g.channel ≡ object ∷ rest
        → h ≡ after_send object (outlet.send g.sent object) (record g { channel = rest })
        → Move g h
    -- it has sent all, finds the channel that it closed empty, and closes the stream
    finish :
        g.sender ≡ receiving
        → length g.sent ≡ count
        → g.channel ≡ []
        → h ≡ after_close (outlet.close_and_recv g.sent) g
        → Move g h
    -- or it sees that the group was cancelled
    stop :
        g.sender ≡ receiving → g.is_cancelled ≡ true → h ≡ record g { sender = returned } → Move g h

  -- A run, with the number of its steps.
  pub data Trace (g : Upload) : ℕ → Upload → Type 0 where
    here : Trace g 0 g
    next : {n : ℕ} {h i : Upload} → Trace g n h → Move h i → Trace g (suc n) i
