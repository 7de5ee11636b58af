-- ===== src/Client/Upload.antt =====
-- Update of pkg/client/client.go: the changes of a directory become the objects of an update stream.
--
-- Workers turn changes into objects, one goroutine sends these, and a state is what they share. The
-- channel of changes has room for all, so it is filled and closed before the goroutines run. The
-- workers assign one err, that of Update itself: a worker that has read a file sets it, and looks at
-- it in a step of its own, before which others may have set it.
pub mod Steps
pub mod Kept
pub mod Sound
pub mod Sent
pub mod Manned
pub mod Ends
use dateilager.Prelude.{
  ℕ, suc, ◌+◌, ◌%◌, ◌^◌, ◌≡◌, Bool, true, false, Option, none, some, List, [], ◌∷◌, ◌++◌, length, ℤ,
  negsuc, eqb_ℤ, succ64, Bytes, if◌then◌else◌,
}
use dateilager.Result.{Error, Result, ok, err, panic, ◌>>=◌}
use dateilager.Db.Update.{Object}
use dateilager.Files.System
use dateilager.Files.System.{Fs, System}
use dateilager.Files.Objects.{deleted_object, object_from_file_path}
use dateilager.Client.Disk.{FilePath, Disk}
use dateilager.Client.Group.{first_error}

-- fsdiff_pb.Update
pub record Change : Type 0 where
  pub path : Bytes
  pub is_removal : Bool

-- The client's end of the stream fs.Update: its answers may depend on the objects sent before.
pub record Outlet : Type 0 where
  pub connect : Result (Unit {0})
  pub send : List (Option Object) → Option Object → Result (Unit {0})
  pub close_and_recv : List (Option Object) → Result ℤ

-- What a worker makes of a change.
unfoldable pub object_of : {D H : Type 0} → System D H → Bytes → D → Change → Result Object
unfolding object_from_file_path
object_of os dir d change =
    if change.is_removal
    then ok (deleted_object change.path)
    else object_from_file_path os dir change.path d

pub data Sender : Type 0 where
  connecting receiving returned : Sender

pub record Upload : Type 0 where
  -- the channel of changes, and the changes that workers read
  pub changes : List Change
  pub reading : List Change
  -- what workers have read and not looked at err for, what they hold, what is in the channel, and
  -- what was sent: objects, or nil
  pub checking : List (Option Object)
  pub holding : List (Option Object)
  pub channel : List (Option Object)
  pub sent : List (Option Object)
  -- the err of Update, which its workers assign
  pub shared_error : Option Error
  -- the workers that wait for a change
  pub idle : ℕ
  pub sender : Sender
  pub to_version : ℤ
  pub is_cancelled : Bool
  pub error : Option Error

-- Before the goroutines run.
abbrev pub begin : List Change → ℕ → Upload
begin changes workers = record {
  changes = changes;
  reading = [];
  checking = [];
  holding = [];
  channel = [];
  sent = [];
  shared_error = none;
  idle = workers;
  sender = connecting;
  to_version = negsuc 0;
  is_cancelled = false;
  error = none;
}

-- A goroutine returns an error, and the group is cancelled.
unfoldable pub abort : Error → Upload → Upload
abort e g = record g { is_cancelled = true; error = first_error g.error e }

-- A worker that has read its change assigns the object, or nil, and err; for a removal it holds an
-- object at once.
abbrev pub after_read : Bool → Result Object → Upload → Upload
after_read true (ok object) g = record g { holding = some object ∷ g.holding }
after_read false (ok object) g = record g {
  checking = some object ∷ g.checking;
  shared_error = none;
}
after_read is_removal (err e) g = record g { checking = none ∷ g.checking; shared_error = some e }

-- It looks at err: an error ends it, whichever worker assigned it.
abbrev pub after_look : Option Object → Option Error → Upload → Upload
after_look object none g = record g { holding = object ∷ g.holding }
after_look object (some e) g = abort e g

abbrev pub after_connect : Result (Unit {0}) → Upload → Upload
after_connect (ok u) g = record g { sender = receiving }
after_connect (err e) g = abort e (record g { sender = returned })

-- count is the number of objects sent; an object whose Send fails ends the goroutine, and the
-- message of the error dereferences the object.
abbrev pub after_send : Option Object → Result (Unit {0}) → Upload → Upload
after_send object (ok u) g = record g { sent = g.sent ++ object ∷ [] }
after_send (some object) (err e) g = abort e (record g { sender = returned })
after_send none (err e) g = abort panic (record g { sender = returned })

abbrev pub after_close : Result ℤ → Upload → Upload
after_close (ok version) g = record g { sender = returned; to_version = version }
after_close (err e) g = abort e (record g { sender = returned })

-- All goroutines have returned.
pub record IsDone (g : Upload) : Type 0 where
  pub sender : g.sender ≡ returned
  pub idle : g.idle ≡ 0
  pub reading : g.reading ≡ []
  pub checking : g.checking ≡ []
  pub holding : g.holding ≡ []
