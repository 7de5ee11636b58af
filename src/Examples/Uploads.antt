-- ===== src/Examples/Uploads.antt =====
-- Update of pkg/client, with one worker, for a directory in which one file was removed.
use dateilager.Prelude.{
  ◌≤◌, ◌*◌, ◌+◌, length, ◌≡◌, ◌⊎◌, refl, inl, inr, true, false, none, some, List, [], ◌∷◌, ℤ, pos,
  Bytes, codes, arith, ℕ, ap,
}
use dateilager.Result.{Result, ok}
use dateilager.Files.Objects.{deleted_object}
use dateilager.Client.Disk.{Disk}
use dateilager.Client.Dir.{write_version_file}
use dateilager.Client.Rebuild.{Differ}
use dateilager.Client.Upload.{IsDone, Change, Outlet, Upload, begin, object_of, returned}
use dateilager.Client.Upload.Steps.{
  Trace, here, next, connect, take, read_change, put, send, finish, leave,
}
use dateilager.Client.Update.{open_update, update_count, Updates, Runs, recorded}
use dateilager.Client.Upload.Ends.{CanMove, moves_end}
use dateilager.Client.Update.Complete.{Uploaded, Follows, updates_lem}
use dateilager.Examples.Clients.{home_disk}
use dateilager.Examples.Rebuilds.{
  quiet_system, no_path, no_objects, home, works, one_response, opened_disk,
}

abbrev removal : Change
removal = record { path = codes "a"; is_removal = true }

abbrev one_change : Differ Change (Unit {0})
one_change = record {
  read_summary = λ dir d. ok tt;
  write_summary = λ dir summary. works tt;
  diff = λ dir summary d. ok (removal ∷ [], tt);
}

-- The server counts on from version 3.
abbrev fourth : Outlet
fourth = record {
  connect = ok tt;
  send = λ sent object. ok tt;
  close_and_recv = λ sent. ok (pos 4);
}

abbrev finished : Upload
finished = record (begin [] 0) {
  sent = some (deleted_object (codes "a")) ∷ [];
  sender = returned;
  to_version = pos 4;
}

removed :
    Trace
      (object_of quiet_system (no_path home) opened_disk)
      fourth
      1
      (begin (removal ∷ []) 1)
      7
      finished
unfolding object_of
removed =
    next
      (next
        (next
          (next
            (next (next (next here (connect refl refl)) (take removal [] 0 refl refl refl))
              (read_change [] removal [] refl refl))
            (put [] (some (deleted_object (codes "a"))) [] refl (omega arith) refl))
          (send (some (deleted_object (codes "a"))) [] refl refl refl))
        (finish refl refl refl refl))
      (leave 0 refl refl refl)

runs :
    Runs quiet_system no_path no_objects one_change one_response fourth 1 home home
      (removal ∷ [])
      opened_disk
      finished
runs = record {
  moves = 7;
  trace = removed;
  done = record { sender = refl; idle = refl; reading = refl; checking = refl; holding = refl };
}

opens : open_update one_change home home_disk ≡ (ok (pos 3, removal ∷ []), opened_disk)
unfolding open_update dateilager.Client.Rebuild.diff_and_summarize
    dateilager.Client.Dir.ensure_metadata_dir dateilager.Client.Dir.read_version_file
    dateilager.Client.Disk.read_file dateilager.Decimal.parse_int dateilager.Client.Disk.mkdir_all
opens = refl

abbrev new_disk : Disk
new_disk = (write_version_file home (pos 4) opened_disk).1

abbrev outcome : Result (ℤ × ℕ) × Disk
outcome = (ok (pos 4, 1), new_disk)

abbrev recorded_update : Result (ℤ × ℕ) × Disk
recorded_update =
    dateilager.Client.Update.after_record (pos 4, 1) (write_version_file home (pos 4) opened_disk)

outcome-recorded_update : outcome ≡ recorded_update
unfolding write_version_file dateilager.Client.Disk.mkdir_all dateilager.Client.Disk.write_with
outcome-recorded_update = refl

updated :
    Updates quiet_system no_path no_objects one_change one_response fourth 1 home home home_disk
      outcome
unfolding dateilager.Prelude.succ64 dateilager.Prelude.◌+ℤ◌
updated =
    recorded (pos 3) removal [] opened_disk finished opens runs refl refl outcome-recorded_update

updates_lem_example :
    (from : ℤ) × (changes : List Change) × (d' : Disk) × (open_update one_change home home_disk
      ≡ (ok (from, changes), d'))
    × (1 ≡ update_count changes)
    × (((changes ≡ []) × (pos 4 ≡ from) × (new_disk ≡ d'))
        ⊎ ((to : ℤ) × Uploaded quiet_system no_path no_objects one_change one_response fourth 1 home
              home changes d' to
            × Follows quiet_system no_path no_objects one_change one_response fourth 1 home home
                from to
                (pos 4)
                d'
                new_disk))
updates_lem_example =
    updates_lem quiet_system no_path no_objects one_change one_response fourth 1 home home home_disk
      new_disk (pos 4) 1 updated

moves_end_example :
    (7 ≤ 5 * length (removal ∷ []) + 1 + 2)
    × (IsDone finished
        ⊎ CanMove (object_of quiet_system (no_path home) opened_disk) fourth 1 finished)
moves_end_example =
    moves_end (object_of quiet_system (no_path home) opened_disk) fourth (removal ∷ []) 1
      (omega arith) removed
