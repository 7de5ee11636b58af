-- ===== src/Client/Group.antt =====
-- The goroutines of Rebuild and GetCache in pkg/client/client.go: a receiver puts the responses of a
-- stream into a channel, and workers write them, in an errgroup that the first error cancels.
--
-- A state is what the goroutines share. A step is one goroutine going on, in any order. What a
-- worker writes counts as one step; that another goroutine's error can be the first that the group
-- records, between a call of cancel and the return, is left out.
pub mod Steps
pub mod Kept
pub mod Staffed
pub mod Ends
pub mod Accepted
pub mod Unmanned
pub mod Unfailing
pub mod Replayed
use dateilager.Prelude.{ℕ, suc, ◌≡◌, Bool, true, false, Option, none, some, List, [], ◌∷◌}
use dateilager.Result.{Error, Result, ok, err}

-- What Rebuild and GetCache put into the goroutines: R is a response, S is what they share.
pub record Job (R S : Type 0) : Type 0 where
  -- the buffer of the channel
  pub capacity : ℕ
  -- the check of the version of a response
  pub accept : R → S → Result (Unit {0}) × S
  -- what a worker does with a response
  pub write : R → S → Result (Unit {0}) × S
  -- what becomes of an error of Recv
  pub on_lost : Error → Error
  -- ctx.Err() of a cancelled context
  pub cancelled : Error

-- The receiver has a response that is not checked, or one to send, or has closed the channel.
pub data Receiver (R : Type 0) : Type 0 where
  checking sending : R → Receiver R
  stopped : Receiver R

pub record Group (R S : Type 0) : Type 0 where
  -- what Recv will return, and how the stream ends
  pub stream : List R
  pub end : Result (Unit {0})
  pub receiver : Receiver R
  pub channel : List R
  -- the responses that workers write now, and the workers that wait
  pub busy : List R
  pub idle : ℕ
  -- the responses that were written
  pub written : List R
  pub is_cancelled : Bool
  pub error : Option Error
  pub shared : S

abbrev pub first_error : Option Error → Error → Option Error
first_error none e = some e
first_error (some d) e = some d

module _ {R S : Type 0} where
  -- Before the goroutines run; one response was received already.
  abbrev pub start : R → List R → Result (Unit {0}) → ℕ → S → Group R S
  start first stream end workers s = record {
    stream = stream;
    end = end;
    receiver = checking first;
    channel = [];
    busy = [];
    idle = workers;
    written = [];
    is_cancelled = false;
    error = none;
    shared = s;
  }

  -- A goroutine returns an error, and the group is cancelled.
  unfoldable pub fail : Error → Group R S → Group R S
  fail e g = record g { is_cancelled = true; error = first_error g.error e }

  -- All goroutines have returned.
  pub record IsFinished (g : Group R S) : Type 0 where
    pub receiver : g.receiver ≡ stopped
    pub idle : g.idle ≡ 0
    pub busy : g.busy ≡ []

module _ {R S : Type 0} (job : Job R S) where
  -- After the check of a response.
  abbrev pub after_check : R → Result (Unit {0}) × S → Group R S → Group R S
  after_check r (ok u, s) g = record g { receiver = sending r; shared = s }
  after_check r (err e, s) g = fail e (record g { receiver = stopped; shared = s })

  unfoldable pub check_response : R → Group R S → Group R S
  unfolding fail
  check_response r g = after_check r (job.accept r g.shared) g

  -- Recv: the next response, io.EOF or an error.
  abbrev pub after_end : Result (Unit {0}) → Group R S → Group R S
  after_end (ok u) g = record g { receiver = stopped }
  after_end (err e) g = fail (job.on_lost e) (record g { receiver = stopped })

  abbrev pub receive_from : List R → Group R S → Group R S
  receive_from [] g = after_end g.end g
  receive_from (r ∷ rs) g = record g { receiver = checking r; stream = rs }

  -- A worker that is done with a response, and the other busy ones.
  abbrev pub after_write : R → Result (Unit {0}) × S → Group R S → Group R S
  after_write r (ok u, s) g = record g { idle = suc g.idle; written = r ∷ g.written; shared = s }
  after_write r (err e, s) g = fail e (record g { shared = s })
