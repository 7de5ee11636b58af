-- ===== src/Api/Fs/Isolated/Token.antt =====
-- pkg/api/fs.go, Update: what a token of a project can change.
use dateilager.Prelude.{
  ◌≡◌, ◌≢◌, refl, sym, ◌∙◌, ap, Bool, true, false, not, Option, none, some, List, [], ◌∷◌, arith, ℤ,
  negsuc, eqb_ℤ, eqb_ℤ_iff, succ64, Bytes, all, if◌then◌else◌, Bool-cases, inl, inr, Option-cases,
  ◌⊎◌,
}
use dateilager.Result.{Result, ok, err, invalid_argument, status, panic}
use dateilager.Codec.{Codec}
use dateilager.Auth.{Auth, require_project_auth}
use dateilager.Db.Schema.{ObjectRow, Tables}
use dateilager.Db.Session.{Session, Tx, continue, ◌>>=◌, raise, lift}
use dateilager.Db.Session.Others.{
  others, Stays, Stays-exec, Stays-connect, Stays-commit, Stays->>=, Stays-pure, Stays-lift,
  Stays-catch, Stays-close, Stays-if, Stays-raise,
}
use dateilager.Db.History.{tree_at, is_visible}
use dateilager.Db.History.Trees.{tree_at-filter}
use dateilager.Db.Project.{lock_latest_version, update_latest_version}
use dateilager.Db.Update.{Object}
use dateilager.Db.Pack.{new_pack_manager, is_path_packed}
use dateilager.Api.Fs.Update.{
  Received, request, failure, Buffers, receive, write_version, update, ensure_manager, is_empty,
  no_buffers, buffer_object, stream_project,
}
use dateilager.Api.Fs.Isolated.{
  select_patterns-Leaves, select_latest-Leaves, set_latest-Leaves, write_objects-Stays,
  write_packs-Stays,
}

continue-ok {ℓ κ} :
    {A : Type ℓ} {B : Type κ} (r : Result A) (next : A → Tx B) (s : Session) (b : B)
    → (continue r next s).0 ≡ ok b
    → (a : A) × ((next a s).0 ≡ ok b)
continue-ok (ok a) next s b h = (a, h)
continue-ok (err e) next s b h = cc h

if-ok {ℓ} :
    {B : Type ℓ} (c : Bool) (m n : Tx B) (s : Session) (b : B)
    → ((if c then m else n) s).0 ≡ ok b
    → ((m s).0 ≡ ok b) ⊎ ((n s).0 ≡ ok b)
if-ok true m n s b h = inl h
if-ok false m n s b h = inr h

module _ (codec : Codec) (p : ℤ) where
  ensure-Stays :
      (rows : List ObjectRow) (q : ℤ) (manager : Option (List Bytes))
      → Stays p rows (ensure_manager codec q manager)
  unfolding new_pack_manager
  ensure-Stays rows q (some manager) = Stays-pure p rows manager
  ensure-Stays rows q none = Stays-catch p rows _ _ (
      Stays->>= p rows _ _ (Stays-exec p rows _ (select_patterns-Leaves p q)) λ patterns _ _.
        Stays-if p rows _ _ (all codec.is_pattern patterns) (Stays-pure p rows patterns)
          (Stays-raise p rows _ panic))

  receive-Stays :
      (rows : List ObjectRow) (stream : List Received) (b : Buffers)
      → Stays p rows (receive codec stream b)
  unfolding receive
  receive-Stays rows [] b = Stays-pure p rows b
  receive-Stays rows (failure code ∷ stream) b = Stays-raise p rows _ (status code)
  receive-Stays rows (request requested object ∷ stream) b =
      let q = stream_project codec b.project requested in
      Stays-if p rows _ _ (not (eqb_ℤ q requested)) (Stays-raise p rows _ (status invalid_argument))
        (Stays->>= p rows _ _ (ensure-Stays rows q b.pack_manager) λ manager _ _.
          receive-Stays rows stream (
            buffer_object codec manager object
              (record b { project = q; pack_manager = some manager })))

  buffer_object-project :
      (manager : List Bytes) (object : Object) (b : Buffers)
      → (buffer_object codec manager object b).project ≡ b.project
  unfolding buffer_object
  buffer_object-project manager object b =
      elim (Option-cases (is_path_packed codec manager object.path)) [
        | inl n ↦ rw (n, buffer_object) refl
        | inr (parent, f) ↦ rw (f, buffer_object) refl
      ]

  stream_project-own :
      (q requested : ℤ) → q ≡ p → p ≢ negsuc 0 → stream_project codec q requested ≡ p
  stream_project-own q requested e ne = elim (Bool-cases (eqb_ℤ q (negsuc 0))) [
    | inl k ↦ absurd (ne (sym e ∙ (eqb_ℤ_iff q (negsuc 0)).0 k))
    | inr k ↦ rw k e
  ]

  -- The stream of a token keeps its project.
  receive-project :
      (stream : List Received) (b b' : Buffers) (s : Session)
      → p ≢ negsuc 0
      → b.project ≡ p
      → (receive codec stream b s).0 ≡ ok b'
      → b'.project ≡ p
  unfolding receive ◌>>=◌
  receive-project [] b b' s ne e h = cc (h, e)
  receive-project (failure code ∷ stream) b b' s ne e h = cc h
  receive-project (request requested object ∷ stream) b b' s ne e h =
      let q = stream_project codec b.project requested in
      let next : List Bytes → Buffers = λ manager.
        buffer_object codec manager object
          (record b { project = q; pack_manager = some manager }) in
      let wait = ensure_manager codec q b.pack_manager in
      elim (if-ok (not (eqb_ℤ q requested)) (raise (status invalid_argument))
        (wait >>= λ manager. receive codec stream (next manager)) s b' h) [
          | inl k ↦ cc k
          | inr k ↦
              let (manager, k') =
                continue-ok (wait s).0 (λ manager. receive codec stream (next manager)) (wait s).1
                  b' k in
              receive-project stream (next manager) b' (wait s).1 ne
                (buffer_object-project manager object
                    (record b { project = q; pack_manager = some manager })
                  ∙ stream_project-own b.project requested e ne)
                k'
        ]

  write_version-Stays :
      (rows : List ObjectRow) (range : List (Bytes × List Object) → List (Bytes × List Object))
      (b : Buffers)
      → b.project ≡ p
      → Stays p rows (write_version codec range b)
  unfolding write_version lock_latest_version update_latest_version
  write_version-Stays rows range b e =
      Stays-if p rows _ _ (is_empty codec b) (Stays-pure p rows (negsuc 0)) (
        Stays->>= p rows _ _
          (Stays-catch p rows _ _ (Stays-exec p rows _ (select_latest-Leaves p b.project)))
          λ latest _ _.
            Stays->>= p rows _ _
              (rw e (write_objects-Stays p codec rows (succ64 latest) b.object_buffer false))
              λ changed _ _.
                Stays->>= p rows _ _
                  (rw e (
                    write_packs-Stays p codec rows (succ64 latest) (range b.packed_buffer) changed))
                  λ should_update _ _.
                    Stays-if p rows _ _ (not should_update) (Stays-pure p rows latest) (
                      Stays->>= p rows _ _
                        (Stays-catch p rows _ _
                          (Stays-exec p rows _ (rw e (set_latest-Leaves p (succ64 latest)))))
                        λ _ _ _.
                          Stays->>= p rows _ _ (Stays-catch p rows _ _ (Stays-commit p rows))
                            λ _ _ _. Stays-pure p rows (succ64 latest)))

  update-Stays :
      (rows : List ObjectRow) (range : List (Bytes × List Object) → List (Bytes × List Object))
      (stream : List Received)
      → p ≢ negsuc 0
      → Stays p rows (update codec range (Auth.project p) stream)
  unfolding update require_project_auth lift
  update-Stays rows range stream ne = Stays-close p rows _ (
      Stays->>= p rows _ _ (Stays-lift p rows (ok p)) λ q s' h.
        Stays->>= p rows _ _ (Stays-catch p rows _ _ (Stays-connect p rows)) λ _ _ _.
          Stays->>= p rows _ _ (receive-Stays rows stream (no_buffers codec q)) λ b s k.
            write_version-Stays rows range b
              (receive-project stream (no_buffers codec q) b s ne (sym (cc h)) k))

others_visible :
    (p q w : ℤ) (r : ObjectRow) → q ≢ p → is_visible q w r ≡ true → not (eqb_ℤ r.project p) ≡ true
unfolding is_visible
others_visible p q w r ne h =
    ground (arith, eqb_ℤ_iff q p, eqb_ℤ_iff r.project p, eqb_ℤ_iff r.project q)

tree_at-others :
    (p q w : ℤ) (path : Bytes) (rows : List ObjectRow)
    → q ≢ p
    → tree_at (others p rows) q w path ≡ tree_at rows q w path
unfolding others
tree_at-others p q w path rows ne =
    tree_at-filter q w path (λ r. not (eqb_ℤ r.project p)) rows λ r m h. others_visible p q w r ne h

-- A connection that sees what is durable.
abbrev pub fresh_session : Tables → List Bool → Session
fresh_session t faults = record { view = t; committed = t; faults = faults }

-- Update with a token of a project, which is not the number -1, leaves the durable tree of every other
-- project at every version as it was, whatever the stream sends and whichever connections,
-- statements and commits fail.
pub update-isolated :
    (codec : Codec) (range : List (Bytes × List Object) → List (Bytes × List Object)) (own q w : ℤ)
    (path : Bytes) (stream : List Received) (t : Tables) (faults : List Bool)
    → own ≢ negsuc 0
    → q ≢ own
    → tree_at
        (update codec range (Auth.project own) stream (fresh_session t faults)).1.committed.objects
        q
        w
        path
      ≡ tree_at t.objects q w path
update-isolated codec range own q w path stream t faults nz ne =
    let after =
      update-Stays codec own (others own t.objects) range stream nz (fresh_session t faults)
        (refl, refl) in
    let rows =
      (update codec range (Auth.project own) stream (fresh_session t faults)).1.committed.objects in
    sym (tree_at-others own q w path rows ne)
    ∙ ap (λ x. tree_at x q w path) after.1
    ∙ tree_at-others own q w path t.objects ne
