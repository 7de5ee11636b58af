-- ===== src/Client/Rebuild/Versions.antt =====
-- A rebuild that succeeds took its directory to the one version that all responses carry.
use dateilager.Prelude.{
  ℕ, ◌≤◌, ◌≡◌, ◌≢◌, refl, ap, sym, subst, ◌∙◌, ◌⊎◌, inl, inr, Bool, true, false, Bool-cases, Option,
  none, some, List, [], ◌∷◌, All, ℤ, pos, eqb_ℤ, eqb_ℤ_iff, Bytes, arith, if◌then◌else◌,
}
use dateilager.Result.{Error, Result, ok, err, bad_response}
use dateilager.Files.System.{System}
use dateilager.Files.System
use dateilager.Files.Matcher.{FileMatcher}
use dateilager.Files.Writer.{Reader}
use dateilager.Files.Tar.{Written}
use dateilager.Client.Disk.{FilePath, Disk}
use dateilager.Client.Dir.{write_version_file}
use dateilager.Client.Tracker.{
  Tracker, new_result_tracker, check_version, add, RebuildResult, result,
}
use dateilager.Client.Group.{Group, start, IsFinished}
use dateilager.Client.Group.Steps.{Run}
use dateilager.Client.Group.Kept.{total, SameItems}
use dateilager.Client.Group.Accepted.{IsChecking, written_passed}
use dateilager.Client.Group.Ends.{written_lem}
use dateilager.Client.Rebuild.{
  with_summary, diff_and_summarize, Response, Rebuilt, Differ, after_tar, write_response,
  accept_response, rebuild_job, close_rebuild,
}

-- 1 for a response of another version
abbrev pub off_version : ℤ → Response → ℕ
off_version v r = if eqb_ℤ r.version v then 0 else 1

abbrev pub HasVersion : ℤ → Response → Type 0
HasVersion v r = r.version ≡ v

check_version-ok :
    (v : ℤ) (t u : Tracker)
    → check_version v t ≡ (ok tt, u)
    → ((t.version ≡ pos 0) ⊎ (v ≡ t.version)) × (u.version ≡ v)
unfolding check_version
check_version-ok v t u e =
    let stored : u.version ≡ v = ap (λ x. x.1.version) (sym e) in
    elim (Bool-cases (eqb_ℤ t.version (pos 0))) [
      | inl z ↦ (inl ((eqb_ℤ_iff t.version (pos 0)).0 z), stored)
      | inr n ↦ elim (Bool-cases (eqb_ℤ t.version v)) [
        | inl q ↦ (inr (sym ((eqb_ℤ_iff t.version v).0 q)), stored)
        | inr m ↦
            let refused : (check_version v t).0 ≡ err bad_response = rw (n, m) refl in
            absurd (cc (ap (λ x. x.0) e, refused))
      ]
    ]

off_version-All :
    (v : ℤ) (rs : List Response) → total (off_version v) rs ≡ 0 → All (HasVersion v) rs
unfolding total
off_version-All v [] z = tt
off_version-All v (r ∷ rs) z = elim (Bool-cases (eqb_ℤ r.version v)) [
  | inl e ↦ ((eqb_ℤ_iff r.version v).0 e, off_version-All v rs (omega (arith, z)))
  | inr e ↦ absurd (ground (arith, e, z))
]

after_tar-version :
    {H : Type 0} (os : System Disk H) (path_of : FilePath → Bytes) (open_tar : Bytes → Reader)
    (matcher : Option FileMatcher) (dir cache_dir : FilePath) (x : Result Written × Disk)
    (s : Rebuilt)
    → (after_tar os path_of open_tar matcher dir cache_dir x s).1.tracker.version
      ≡ s.tracker.version
unfolding add
after_tar-version os path_of open_tar matcher dir cache_dir (ok w, d) s = refl
after_tar-version os path_of open_tar matcher dir cache_dir (err e, d) s = refl

with_summary-eq :
    {A Y : Type 0} (differ : Differ A Y) (dir : FilePath) (summarize : Bool) (r r' : RebuildResult)
    (d d' : Disk)
    → with_summary differ dir summarize r d ≡ (ok r', d')
    → r' ≡ r
with_summary-eq differ dir true r r' d d' h =
    let (a, e, k) = System.>>=-eq-ok (diff_and_summarize differ dir) (λ _. System.pure r) d h in
    cc k
with_summary-eq differ dir false r r' d d' h = cc h

-- The end of a rebuild that returns a result.
closed :
    {A Y : Type 0} (differ : Differ A Y) (dir : FilePath) (summarize : Bool) (e : Option Error)
    (s : Rebuilt) (r : RebuildResult) (d : Disk)
    → close_rebuild differ dir summarize e s ≡ (ok r, d)
    → (e ≡ none)
      × (r ≡ result s.tracker)
      × ((write_version_file dir (result s.tracker).version s.disk).0 ≡ ok tt)
unfolding close_rebuild
closed differ dir summarize (some e) s r d h = cc
closed differ dir summarize none s r d h =
    let found = result s.tracker in
    let (u, w, k) =
      System.>>=-eq-ok (write_version_file dir found.version)
        (λ _. with_summary differ dir summarize found) s.disk h in
    (
      refl,
      with_summary-eq differ dir summarize found r (write_version_file dir found.version s.disk).1 d
          k,
      w,
    )

module _ {H : Type 0} (os : System Disk H) (path_of : FilePath → Bytes) (open_tar : Bytes → Reader)
    (dir cache_dir : FilePath) (matcher : Option FileMatcher) (first : Response)
    (numbered : first.version ≢ pos 0) where
  abbrev Fresh : Rebuilt → Type 0
  Fresh s = s.tracker.version ≡ pos 0

  abbrev Good : Rebuilt → Type 0
  Good s = s.tracker.version ≡ first.version

  accepted :
      (r : Response) (s s' : Rebuilt)
      → accept_response os path_of open_tar matcher dir cache_dir r s ≡ (ok tt, s')
      → ((s.tracker.version ≡ pos 0) ⊎ (r.version ≡ s.tracker.version))
        × (s'.tracker.version ≡ r.version)
  unfolding accept_response
  accepted r s s' e =
      check_version-ok r.version s.tracker s'.tracker (ap (λ x. (x.0, x.1.tracker)) e)

  on_version : (r : Response) → r.version ≡ first.version → off_version first.version r ≡ 0
  on_version r e = rw ((eqb_ℤ_iff r.version first.version).1 e) refl

  pub rebuild_job-IsChecking :
      IsChecking
        (rebuild_job os path_of open_tar matcher dir cache_dir)
        (off_version first.version)
        first
        Fresh
        Good
  unfolding write_response
  rebuild_job-IsChecking = record {
    first_check = λ s s' fresh e. (on_version first refl, (accepted first s s' e).1);
    later_check = λ r s s' good e.
        let (before, after) = accepted r s s' e in
        let same : r.version ≡ first.version = elim before [
          | inl z ↦ absurd (numbered (sym good ∙ z))
          | inr q ↦ q ∙ good
        ] in
        (on_version r same, after ∙ same);
    written_fresh =
        λ r s fresh. after_tar-version os path_of open_tar matcher dir cache_dir _ s ∙ fresh;
    written = λ r s good. after_tar-version os path_of open_tar matcher dir cache_dir _ s ∙ good;
  }

  -- If Rebuild has a worker and returns a result after its goroutines ran, in whatever order, then
  -- all responses carry the version of that result, where the first does not carry 0; each was
  -- written as often as it was received; and the version was written to the directory's version
  -- file after that.
  pub rebuild_versions :
      {A Y : Type 0} (differ : Differ A Y) (summarize : Bool) (rest : List Response)
      (end : Result (Unit {0})) (workers : ℕ) (d d' : Disk) {n : ℕ} {h : Group Response Rebuilt}
      (r : RebuildResult)
      → 1 ≤ workers
      → Run
          (rebuild_job os path_of open_tar matcher dir cache_dir)
          (start first rest end workers (record { tracker = new_result_tracker; disk = d }))
          n
          h
      → IsFinished h
      → close_rebuild differ dir summarize h.error h.shared ≡ (ok r, d')
      → All (HasVersion r.version) (first ∷ rest)
        × SameItems h.written (first ∷ rest)
        × ((write_version_file dir r.version h.shared.disk).0 ≡ ok tt)
  unfolding result
  rebuild_versions differ summarize rest end workers d d' {h = h} r b run f e =
      let (o, same, w) = closed differ dir summarize h.error h.shared r d' e in
      let job = rebuild_job os path_of open_tar matcher dir cache_dir in
      let all_written = written_lem job first rest end workers _ b run f o in
      let (good, zero_faults) =
        written_passed job (off_version first.version) first Fresh Good rebuild_job-IsChecking rest
          end workers _ refl run f o in
      let version : r.version ≡ first.version = ap (λ x. x.version) same ∙ good in
      let clean =
        off_version-All first.version (first ∷ rest)
          (sym (all_written (off_version first.version)) ∙ zero_faults) in
      (
        subst (λ v. All (HasVersion v) (first ∷ rest)) (sym version) clean,
        all_written,
        ap (λ x. (write_version_file dir x.version h.shared.disk).0) same ∙ w,
      )
