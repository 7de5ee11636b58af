-- ===== src/Client/Cache/Versions.antt =====
-- GetCache that succeeds has fetched all packs of one version.
use dateilager.Prelude.{
  ℕ, ◌≤◌, ◌≡◌, refl, ap, sym, ◌∙◌, inl, inr, Bool-cases, List, [], ◌∷◌, All, ℤ, eqb_ℤ, eqb_ℤ_iff,
  Bytes, none, arith, if◌then◌else◌,
}
use dateilager.Result.{Result, ok, err, bad_response}
use dateilager.Files.System.{System}
use dateilager.Files.Writer.{Reader}
use dateilager.Client.Disk.{FilePath, Disk}
use dateilager.Client.Group.{Group, start, IsFinished}
use dateilager.Client.Group.Steps.{Run}
use dateilager.Client.Group.Kept.{total, SameItems}
use dateilager.Client.Group.Accepted.{IsChecking, written_passed}
use dateilager.Client.Group.Ends.{written_lem}
use dateilager.Client.Cache.{CacheResponse, Fetched, accept_cached, cache_job}

abbrev off_version : ℤ → CacheResponse → ℕ
off_version v r = if eqb_ℤ r.version v then 0 else 1

abbrev pub IsOf : ℤ → CacheResponse → Type 0
IsOf v r = r.version ≡ v

off_version-All : (v : ℤ) (rs : List CacheResponse) → total (off_version v) rs ≡ 0 → All (IsOf v) rs
unfolding total
off_version-All v [] z = tt
off_version-All v (r ∷ rs) z = elim (Bool-cases (eqb_ℤ r.version v)) [
  | inl e ↦ ((eqb_ℤ_iff r.version v).0 e, off_version-All v rs (omega (arith, z)))
  | inr e ↦ absurd (ground (arith, e, z))
]

module _ {H : Type 0} (os : System Disk H) (path_of : FilePath → Bytes) (open_tar : Bytes → Reader)
    (root : FilePath) where
  abbrev Any : Fetched → Type 0
  Any s = Unit {0}

  accepted :
      (v : ℤ) (r : CacheResponse) (s s' : Fetched)
      → accept_cached os path_of open_tar root v r s ≡ (ok tt, s')
      → off_version v r ≡ 0
  unfolding accept_cached
  accepted v r s s' e = elim (Bool-cases (eqb_ℤ r.version v)) [
    | inl k ↦ rw k refl
    | inr k ↦
        let refused : (accept_cached os path_of open_tar root v r s).0 ≡ err bad_response =
          rw k refl in
        absurd (cc (ap (λ x. x.0) e, refused))
  ]

  cache_job-IsChecking :
      (first : CacheResponse)
      → IsChecking
          (cache_job os path_of open_tar root first.version)
          (off_version first.version)
          first
          Any
          Any
  cache_job-IsChecking first = record {
    first_check = λ s s' u e. (accepted first.version first s s' e, tt);
    later_check = λ r s s' u e. (accepted first.version r s s' e, tt);
    written_fresh = λ r s u. tt;
    written = λ r s u. tt;
  }

  -- If the goroutines of GetCache, of which one is a worker at least, return without an error, then
  -- all responses carry the version of the first, and each was given to a worker, who did not fail
  -- on it, as often as it was received, in whatever order they ran.
  pub get_cache_versions :
      (first : CacheResponse) (rest : List CacheResponse) (end : Result (Unit {0})) (workers : ℕ)
      (s : Fetched) {n : ℕ} {h : Group CacheResponse Fetched}
      → 1 ≤ workers
      → Run (cache_job os path_of open_tar root first.version) (start first rest end workers s) n h
      → IsFinished h
      → h.error ≡ none
      → All (IsOf first.version) (first ∷ rest) × SameItems h.written (first ∷ rest)
  get_cache_versions first rest end workers s b run f o =
      let job = cache_job os path_of open_tar root first.version in
      let all_written = written_lem job first rest end workers s b run f o in
      let (u, zero_faults) =
        written_passed job (off_version first.version) first Any Any (cache_job-IsChecking first)
          rest end workers s tt run f o in
      (
        off_version-All first.version (first ∷ rest)
            (sym (all_written (off_version first.version)) ∙ zero_faults),
        all_written,
      )
