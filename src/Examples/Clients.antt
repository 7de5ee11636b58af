-- ===== src/Examples/Clients.antt =====
-- pkg/client on concrete directories and states, and the reading handlers of pkg/api/fs.go.
use dateilager.Prelude.{
  ◌≡◌, refl, true, false, List, [], ◌∷◌, ℤ, pos, negsuc, codes, arith, not, ◌&&◌, ◌==◌, ◌%◌, ◌^◌,
}
use dateilager.Result.{ok, err, bad_state}
use dateilager.Db.Session.{Tx, lift, pure}
use dateilager.Db.Project.{ProjectVersion}
use dateilager.Client.Disk.{absent, folder, file, Disk}
use dateilager.Client.Dir.{write_version_file, read_version_file, read_cache_version_file}
use dateilager.Client.Dir.Kept.{
  read_version_file-write, read_cache_version_file-add, add_cache_versions,
}
use dateilager.Client.State.{state_text, reset_state, reset_state-state_text}
use dateilager.Client.Tracker.{
  Step, received, wrote, new_result_tracker, result, steps, total, all_match, last_version,
  result-steps,
}

-- A directory home at an old version.
abbrev pub home_disk : Disk
home_disk [] = folder
home_disk (name ∷ []) = folder
home_disk (name ∷ dir ∷ []) = folder
home_disk (name ∷ dir ∷ last ∷ []) = file (codes "3")
home_disk _ = absent

read_version_file-write_example :
    ((write_version_file (codes "home" ∷ []) (negsuc 41) home_disk).0 ≡ ok tt)
    × (read_version_file
          (codes "home" ∷ [])
          (write_version_file (codes "home" ∷ []) (negsuc 41) home_disk).1
        ≡ ok (negsuc 41))
read_version_file-write_example =
    read_version_file-write (codes "home" ∷ []) (negsuc 41) home_disk (omega arith) refl
      (tt, (tt, tt)) tt

abbrev empty_disk : Disk
empty_disk [] = folder
empty_disk (name ∷ []) = folder
empty_disk _ = absent

abbrev cached_versions : List ℤ
cached_versions = pos 4 ∷ pos 17 ∷ []

read_cache_version_file-add_example :
    read_cache_version_file
      (codes "cache" ∷ [])
      (add_cache_versions (codes "cache" ∷ []) cached_versions empty_disk)
    ≡ cached_versions
read_cache_version_file-add_example =
    read_cache_version_file-add (codes "cache" ∷ []) cached_versions empty_disk
      (omega arith, (omega arith, tt)) refl refl

abbrev two_projects : List ProjectVersion
two_projects = record { id = pos 1; version = pos 3 } ∷ record { id = pos 2; version = pos 10 } ∷ []

abbrev accept : List ProjectVersion → Tx (Unit {0})
accept projects = pure tt

reset_state-state_text_example :
    (reset_state accept (state_text two_projects) ≡ accept two_projects)
    × (reset_state accept (state_text []) ≡ lift (err bad_state))
reset_state-state_text_example =
    reset_state-state_text accept (record { id = pos 1; version = pos 3 })
      (record { id = pos 2; version = pos 10 } ∷ [])
      ((omega arith, omega arith), ((omega arith, omega arith), tt))

-- Two writers end in an order of their own.
abbrev a_rebuild : List Step
a_rebuild = received (pos 5) ∷ wrote 2 true ∷ received (pos 5) ∷ wrote 0 false ∷ wrote 1 false ∷ []

result-steps_example : result (steps a_rebuild new_result_tracker) ≡ record {
  version = last_version (pos 0) a_rebuild;
  count = total a_rebuild % 2 ^ 32;
  file_match = not (total a_rebuild % 2 ^ 32 == 0) && all_match a_rebuild;
}
result-steps_example = result-steps a_rebuild
