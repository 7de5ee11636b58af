-- ===== src/Client/Rebuild/Unmanned.antt =====
-- A rebuild without workers, as DL_WRITE_WORKERS=0 asks for.
use dateilager.Prelude.{
  ◌<◌, ◌≡◌, refl, ap, sym, ◌∙◌, Option, none, List, [], ◌∷◌, All, ℤ, pos, eqb_ℤ, eqb_ℤ_iff, Bool,
  true, Bool-cases, inl, inr, Bytes, length,
}
use dateilager.Result.{ok}
use dateilager.Files.System.{System}
use dateilager.Files.Matcher.{FileMatcher}
use dateilager.Files.Writer.{Reader}
use dateilager.Client.Disk.{FilePath, Disk}
use dateilager.Client.Tracker.{new_result_tracker, check_version}
use dateilager.Client.Group.Unmanned.{Accepts, unmanned_lem}
use dateilager.Client.Rebuild.{
  Response, Rebuilt, Differ, Remote, accept_response, rebuild_job, open_rebuild, close_rebuild,
  Rebuilds, ran, going,
}
use dateilager.Client.Rebuild.Versions.{HasVersion}

abbrev pub unwritten : ℤ → Disk → Rebuilt
unwritten v d = record { tracker = record { version = v; count = 0; is_match = true }; disk = d }

fresh_ok : (v : ℤ) → (check_version v new_result_tracker).0 ≡ ok tt
unfolding check_version
fresh_ok v = elim (Bool-cases (eqb_ℤ (pos 0) v)) [ inl e ↦ rw e refl | inr e ↦ rw e refl ]

module _ {H A Y : Type 0} (os : System Disk H) (path_of : FilePath → Bytes)
    (open_tar : Bytes → Reader) (differ : Differ A Y) (remote : Remote) (prefix : Bytes)
    (to : Option ℤ) (dir : FilePath) (ignores : List Bytes) (cache_dir : FilePath)
    (matcher : Option FileMatcher) (summarize : Bool) where
  responses_accepted :
      (v : ℤ) (d : Disk) (rs : List Response)
      → All (HasVersion v) rs
      → All
          (Accepts
            (rebuild_job os path_of open_tar matcher dir cache_dir)
            (record { tracker = new_result_tracker; disk = d })
            (unwritten v d))
          rs
  unfolding accept_response check_version
  responses_accepted v d [] a = tt
  responses_accepted v d (r ∷ rs) a = (
    (rw a.0 (ap (λ x. (x, unwritten v d)) (fresh_ok v)), rw (a.0, (eqb_ℤ_iff v v).1 refl) refl),
    responses_accepted v d rs a.1,
  )

  -- Without a worker, Rebuild can go on to its end for a stream of at most 32 responses of one
  -- version: it then writes that version to the version file though it wrote none of the responses.
  pub rebuild_unmanned :
      (first : Response) (rest : List Response) (d d' : Disk)
      → open_rebuild remote prefix to dir ignores cache_dir d ≡ (ok (going first rest (ok tt)), d')
      → All (HasVersion first.version) (first ∷ rest)
      → length rest < 32
      → Rebuilds os path_of open_tar differ remote 0 prefix to dir ignores cache_dir matcher
          summarize d
          (close_rebuild differ dir summarize none (unwritten first.version d'))
  rebuild_unmanned first rest d d' e a b =
      let (n, h, run, f, o, w, s) =
        unmanned_lem (rebuild_job os path_of open_tar matcher dir cache_dir) first rest
          (record { tracker = new_result_tracker; disk = d' }) (unwritten first.version d')
          (responses_accepted first.version d' (first ∷ rest) a) b in
      ran first rest (ok tt) d' n h e run f (
        ap (λ x. close_rebuild differ dir summarize x (unwritten first.version d')) (sym o)
        ∙ ap (close_rebuild differ dir summarize h.error) (sym s))
