-- ===== src/Client/Update/Complete.antt =====
-- Update that succeeds has sent all changes, and the directory follows the server.
use dateilager.Prelude.{
  ℕ, ◌≡◌, ◌≢◌, refl, ap, subst, ◌⊎◌, inl, inr, Option, List, [], ◌∷◌, map, ℤ, succ64, Bytes,
}
use dateilager.Result.{Result, ok, err}
use dateilager.Db.Update.{Object}
use dateilager.Files.System.{System}
use dateilager.Files.Writer.{Reader}
use dateilager.Client.Disk.{FilePath, Disk}
use dateilager.Client.Dir.{write_version_file}
use dateilager.Client.Tracker.{RebuildResult}
use dateilager.Client.Group.Kept.{SameItems}
use dateilager.Client.Rebuild.{Differ, Remote}
use dateilager.Client.Upload.{Change, Outlet, object_of}
use dateilager.Client.Upload.Sent.{message, sent_lem}
use dateilager.Client.Update.{
  open_update, update_count, after_record, after_rebuild, Refreshes, Updates, refused, unchanged,
  failed, recorded, rebuilt,
}

after_record-ok :
    (r s : ℤ × ℕ) (x : Result (Unit {0}) × Disk) (e : Disk)
    → (ok s, e) ≡ after_record r x
    → (s ≡ r) × (x ≡ (ok tt, e))
after_record-ok r s (ok u, d) e h = (cc h, cc h)
after_record-ok r s (err f, d) e h = cc

after_rebuild-ok :
    (count : ℕ) (s : ℤ × ℕ) (x : Result RebuildResult × Disk) (e : Disk)
    → (ok s, e) ≡ after_rebuild count x
    → (r : RebuildResult) × (s ≡ (r.version, count)) × (x ≡ (ok r, e))
after_rebuild-ok count s (ok r, d) e h = (r, cc h, cc h)
after_rebuild-ok count s (err f, d) e h = absurd (cc h)

module _ {H Y : Type 0} (os : System Disk H) (path_of : FilePath → Bytes)
    (open_tar : Bytes → Reader) (differ : Differ Change Y) (remote : Remote) (outlet : Outlet)
    (workers : ℕ) (dir working_dir : FilePath) where
  -- The server got one message for each change, in some order, and answered with a version.
  abbrev pub Uploaded : List Change → Disk → ℤ → Type 0
  Uploaded changes d to =
      (sent : List (Option Object)) × SameItems sent
        (map (message (object_of os (path_of dir) d)) changes)
      × (outlet.close_and_recv sent ≡ ok to)

  -- The directory records the server's version, or was rebuilt if that is not the next one.
  abbrev pub Follows : ℤ → ℤ → ℤ → Disk → Disk → Type 0
  Follows from to version d e =
      ((to ≡ succ64 from) × (version ≡ to) × (write_version_file dir to d ≡ (ok tt, e)))
      ⊎ ((to ≢ succ64 from)
          × ((r : RebuildResult) × (version ≡ r.version)
              × Refreshes os path_of open_tar differ remote outlet workers dir working_dir d
                  (ok r, e)))

  -- If Update returns a version and a count, then the directory had no changes, and they are its
  -- version and 0; or the server got one message for each change, in some order, its object, or
  -- none if it could not be read; and the directory then records the server's answer, if this is the version after its own, or was
  -- rebuilt, whose version is returned, if not. The count is the number of the changes.
  pub updates_lem :
      (d e : Disk) (version : ℤ) (count : ℕ)
      → Updates os path_of open_tar differ remote outlet workers dir working_dir d
          (ok (version, count), e)
      → (from : ℤ) × (changes : List Change) × (d' : Disk) × (open_update differ dir d
          ≡ (ok (from, changes), d'))
        × (count ≡ update_count changes)
        × (((changes ≡ []) × (version ≡ from) × (e ≡ d'))
            ⊎ ((to : ℤ) × Uploaded changes d' to × Follows from to version d' e))
  updates_lem d e version count (refused f d' o k) = absurd (cc k)
  updates_lem d e version count (unchanged from d' o k) =
      (from, [], d', o, cc k, inl (refl, cc k, cc k))
  updates_lem d e version count (failed from change rest d' h f o run s k) = absurd (cc k)
  updates_lem d e version count (recorded from change rest d' h o run s t k) =
      let changes = change ∷ rest in
      let (same, answer) =
        sent_lem (object_of os (path_of dir) d') outlet changes workers run.trace run.done.sender
          s in
      let (p, w) =
        after_record-ok (h.to_version, update_count changes) (version, count)
          (write_version_file dir h.to_version d') e k in
      (
        from,
        changes,
        d',
        o,
        ap (λ x. x.1) p,
        inr (h.to_version, (h.sent, same, answer), inl (t, ap (λ x. x.0) p, w)),
      )
  updates_lem d e version count (rebuilt from change rest d' h result o run s t f k) =
      let changes = change ∷ rest in
      let (same, answer) =
        sent_lem (object_of os (path_of dir) d') outlet changes workers run.trace run.done.sender
          s in
      let (r, p, w) = after_rebuild-ok (update_count changes) (version, count) result e k in
      (
        from,
        changes,
        d',
        o,
        ap (λ x. x.1) p,
        inr (
          h.to_version,
          (h.sent, same, answer),
          inr (
            t,
            (
              r,
              ap (λ x. x.0) p,
              subst (Refreshes os path_of open_tar differ remote outlet workers dir working_dir d')
                  w f,
            ),
          ),
        ),
      )
