-- ===== src/Client/Tracker.antt =====
-- rebuildResultTracker and parallelWorkerCount of pkg/client/client.go: the result of a rebuild,
-- which the receiver and the writers build together. Its fields are atomic, so a run is a sequence
-- of their steps in some order.
use dateilager.Prelude.{
  ℕ, ◌+◌, ◌/◌, ◌%◌, ◌^◌, ◌≤◌, ◌<◌, ◌≡◌, refl, ◌∙◌, Bool, true, false, not, ◌&&◌, ◌||◌, none, some,
  List, [], ◌∷◌, ℤ, pos, eqb_ℤ, ltb, ◌==◌, Bytes, if◌then◌else◌, arith, ◌≤ℤ◌,
}
use dateilager.Result.{Result, ok, err, bad_response}
use dateilager.Decimal.{parse_int}

-- RebuildResult; a count is a uint32
pub record RebuildResult : Type 0 where
  pub version : ℤ
  pub count : ℕ
  pub file_match : Bool

-- emptyResult
abbrev pub empty_result : ℤ → RebuildResult
empty_result version = record { version = version; count = 0; file_match = false }

-- rebuildResultTracker, without its matcher, which nothing reads
pub record Tracker : Type 0 where
  pub version : ℤ
  pub count : ℕ
  pub is_match : Bool

-- newResultTracker
abbrev pub new_result_tracker : Tracker
new_result_tracker = record { version = pos 0; count = 0; is_match = true }

-- checkVersion: the new version is stored even if it differs
unfoldable pub check_version : ℤ → Tracker → Result (Unit {0}) × Tracker
check_version version t = (
  if not (eqb_ℤ t.version version) && not (eqb_ℤ t.version (pos 0))
      then err bad_response
      else ok tt,
  record t { version = version },
)

-- add
unfoldable pub add : ℕ → Bool → Tracker → Tracker
add count is_match t = record t {
  count = (t.count + count) % 2 ^ 32;
  is_match = if ltb 0 count && not is_match then false else t.is_match;
}

-- result
unfoldable pub result : Tracker → RebuildResult
result t = record {
  version = t.version;
  count = t.count;
  file_match = if t.count == 0 then false else t.is_match;
}

-- What the goroutines of Rebuild do to the tracker.
pub data Step : Type 0 where
  received : ℤ → Step
  wrote : ℕ → Bool → Step

unfoldable pub step : Step → Tracker → Tracker
unfolding check_version add
step (received version) t = (check_version version t).1
step (wrote count is_match) t = add count is_match t

unfoldable pub steps : List Step → Tracker → Tracker
unfolding step
steps [] t = t
steps (s ∷ ss) t = steps ss (step s t)

-- The objects of all steps, and whether no step saw a file without a match.
unfoldable pub total : List Step → ℕ
total [] = 0
total (received version ∷ ss) = total ss
total (wrote count is_match ∷ ss) = count + total ss

unfoldable pub all_match : List Step → Bool
all_match [] = true
all_match (received version ∷ ss) = all_match ss
all_match (wrote count is_match ∷ ss) = (count == 0 || is_match) && all_match ss

unfoldable pub last_version : ℤ → List Step → ℤ
last_version v [] = v
last_version v (received version ∷ ss) = last_version version ss
last_version v (wrote count is_match ∷ ss) = last_version v ss

-- Whether no check of a version failed.
unfoldable pub is_checked : List Step → Tracker → Bool
unfolding step check_version
is_checked [] t = true
is_checked (received version ∷ ss) t =
    let rest = is_checked ss (step (received version) t) in
    elim (check_version version t).0 [ ok _ ↦ rest | err _ ↦ false ]
is_checked (wrote count is_match ∷ ss) t = is_checked ss (step (wrote count is_match) t)

steps_lem :
    (ss : List Step) (t : Tracker)
    → t.count < 2 ^ 32
    → ((steps ss t).version ≡ last_version t.version ss)
      × ((steps ss t).count ≡ (t.count + total ss) % 2 ^ 32)
      × ((steps ss t).is_match ≡ (t.is_match && all_match ss))
unfolding steps step add check_version last_version total all_match
steps_lem [] t b = (refl, omega arith, ground arith)
steps_lem (received version ∷ ss) t b = steps_lem ss (step (received version) t) b
steps_lem (wrote count is_match ∷ ss) t b =
    let r = steps_lem ss (step (wrote count is_match) t) (omega arith) in
    (r.0, r.1 ∙ omega arith, r.2 ∙ ground arith)

-- The result of a rebuild does not depend on the order of the steps of its goroutines, but for the
-- version that came last: it counts the objects of all steps modulo 2^32, and reports a match if
-- that count is not 0 and every step that wrote objects matched.
pub result-steps :
    (ss : List Step)
    → result (steps ss new_result_tracker) ≡ record {
      version = last_version (pos 0) ss;
      count = total ss % 2 ^ 32;
      file_match = not (total ss % 2 ^ 32 == 0) && all_match ss;
    }
unfolding result
result-steps ss =
    let r = steps_lem ss new_result_tracker (omega arith) in rw (r.0, r.1, r.2) (ground arith)

-- parallelWorkerCount: an unset variable is the empty text
unfoldable pub parallel_worker_count : Bytes → ℕ → ℤ
parallel_worker_count env cpus =
    let half = cpus / 2 in
    let default : ℤ = pos (if ltb half 1 then 1 else half) in
    elim env [
      | [] ↦ default
      | c ∷ text ↦ elim (parse_int (c ∷ text)) [ none ↦ default | some count ↦ count ]
    ]

-- Without a number in the environment there is at least one worker, and at most half of a
-- machine's processors if it has two.
pub parallel_worker_count-bounds :
    (env : Bytes) (cpus : ℕ)
    → parse_int env ≡ none
    → (pos 1 ≤ℤ parallel_worker_count env cpus)
      × (2 ≤ cpus → parallel_worker_count env cpus ≤ℤ pos (cpus / 2))
unfolding parallel_worker_count
parallel_worker_count-bounds [] cpus h = ground arith
parallel_worker_count-bounds (c ∷ env) cpus h = rw (h, parallel_worker_count) (ground arith)
