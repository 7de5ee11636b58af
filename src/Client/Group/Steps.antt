-- ===== src/Client/Group/Steps.antt =====
-- The steps of the goroutines, and runs of them.
use dateilager.Prelude.{ℕ, suc, ◌<◌, ◌≡◌, true, List, [], ◌∷◌, ◌++◌, length}
use dateilager.Client.Group.{
  Job, checking, sending, stopped, Group, fail, check_response, receive_from, after_write,
}

module _ {R S : Type 0} (job : Job R S) where
  pub data Step (g : Group R S) (h : Group R S) : Type 0 where
    -- the receiver checks a response
    check : (r : R) → g.receiver ≡ checking r → h ≡ check_response job r g → Step g h
    -- it sends the response into the channel and receives the next
    send :
        (r : R)
        → g.receiver ≡ sending r
        → length g.channel < job.capacity
        → h ≡ receive_from job g.stream (record g { channel = g.channel ++ r ∷ [] })
        → Step g h
    -- or it sees that the group was cancelled
    stop :
        (r : R)
        → g.receiver ≡ sending r
        → g.is_cancelled ≡ true
        → h ≡ record g { receiver = stopped }
        → Step g h
    -- a worker takes a response
    take :
        (r : R) (rest : List R) (idle : ℕ)
        → g.channel ≡ r ∷ rest
        → g.idle ≡ suc idle
        → h ≡ record g { channel = rest; busy = r ∷ g.busy; idle = idle }
        → Step g h
    -- a worker has written its response, or could not
    write :
        (before : List R) (r : R) (after : List R)
        → g.busy ≡ before ++ r ∷ after
        → h ≡ after_write job r (job.write r g.shared) (record g { busy = before ++ after })
        → Step g h
    -- a worker finds the channel closed
    leave :
        (idle : ℕ)
        → g.idle ≡ suc idle
        → g.channel ≡ []
        → g.receiver ≡ stopped
        → h ≡ record g { idle = idle }
        → Step g h
    -- a worker sees that the group was cancelled
    quit :
        (idle : ℕ)
        → g.idle ≡ suc idle
        → g.is_cancelled ≡ true
        → h ≡ fail job.cancelled (record g { idle = idle })
        → Step g h

  -- A run, with the number of its steps.
  pub data Run (g : Group R S) : ℕ → Group R S → Type 0 where
    here : Run g 0 g
    next : {n : ℕ} {h i : Group R S} → Run g n h → Step h i → Run g (suc n) i
