-- ===== src/Api/Fs/Isolated.antt =====
-- pkg/api/fs.go, Update: a token of one project does not reach the objects of another.
pub mod Token
use dateilager.Prelude.{
  ◌≡◌, ◌≢◌, refl, sym, ◌∙◌, ap, Bool, true, false, not, ◌&&◌, ◌||◌, Option, none, some, List, [],
  ◌∷◌, arith, ℤ, pos, negsuc, eqb_ℤ, eqb_ℤ_iff, succ64, Bytes, bytes_eq, find, any, all,
  if◌then◌else◌, filter, Bool-cases, inl, inr, Option-cases,
}
use dateilager.Result.{
  Error, Result, ok, err, invalid_argument, internal, status, panic, Result-cases,
}
use dateilager.Codec.{Codec}
use dateilager.Db.Schema.{ObjectRow, ContentRow, Tables, Hash, clash, is_project, insert_or_skip}
use dateilager.Db.Session.{Session, Tx, Statement, pure, raise, exec, commit, ◌>>=◌, catch}
use dateilager.Db.Session.Others.{
  others, others-cons, Left, Leaves, set_rows-Leaves, Within, Stays, Stays-exec, Stays-has_row,
  Stays-exec_outside, Stays-connect, Stays-commit, Stays->>=, Stays-pure, Stays-lift, Stays-catch,
  Stays-close, Stays-if, Stays-raise,
}
use dateilager.Db.History.{tree_at, is_visible}
use dateilager.Db.History.Trees.{tree_at-filter}
use dateilager.Db.Project.{select_latest, set_latest, lock_latest_version, update_latest_version}
use dateilager.Db.Reset.{set_rows}
use dateilager.Db.Update.{
  Object, stop_at, is_live_at, delete_object, insert_object, insert_contents, is_previous,
  previous_paths, new_row, update_object,
}
use dateilager.Db.Pack.{
  select_patterns, new_pack_manager, is_live_pack, select_pack, insert_strictly, pack_row,
  updated_pack, replace_pack, replace_if_changed, bytes_of, update_packed_objects,
}
use dateilager.Api.Fs.Update.{
  Received, request, failure, Buffers, receive, write_object, write_objects, write_packs,
  write_version, update, ensure_manager, is_empty, no_buffers, buffer_object, stream_project,
}

module _ (p : ℤ) where
  pub select_patterns-Leaves : (q : ℤ) → Leaves p (select_patterns q)
  unfolding select_patterns
  select_patterns-Leaves q t = elim (Option-cases (find (is_project q) t.projects)) [
    | inl n ↦ rw (n, Left, select_patterns) tt
    | inr (r, f) ↦ rw (f, Left, select_patterns) refl
  ]

  pub select_latest-Leaves : (q : ℤ) → Leaves p (select_latest q)
  unfolding select_latest
  select_latest-Leaves q t = elim (Option-cases (find (is_project q) t.projects)) [
    | inl n ↦ rw (n, Left, select_latest) tt
    | inr (r, f) ↦ rw (f, Left, select_latest) refl
  ]

  insert_contents-Leaves : (hash : Hash) (bytes : Bytes) → Leaves p (insert_contents hash bytes)
  unfolding insert_contents
  insert_contents-Leaves hash bytes t = refl

  pub set_latest-Leaves : (version : ℤ) → Leaves p (set_latest p version)
  unfolding set_latest
  set_latest-Leaves version t = refl

  insert_object-Leaves : (r : ObjectRow) → r.project ≡ p → Leaves p (insert_object r)
  unfolding insert_object insert_or_skip
  insert_object-Leaves r e t = elim (Bool-cases (any (clash r) t.objects)) [
    | inl c ↦ rw (c, Left, insert_object) refl
    | inr c ↦ rw (c, Left, insert_object) (others-cons p r t.objects e)
  ]

  insert_strictly-Leaves : (r : ObjectRow) → r.project ≡ p → Leaves p (insert_strictly r)
  unfolding insert_strictly
  insert_strictly-Leaves r e t = elim (Bool-cases (any (clash r) t.objects)) [
    | inl c ↦ rw (c, Left, insert_strictly) tt
    | inr c ↦ rw (c, Left, insert_strictly) (others-cons p r t.objects e)
  ]

  select_pack-Leaves : (parent : Bytes) → Leaves p (select_pack p parent)
  unfolding select_pack
  select_pack-Leaves parent t = refl

  set_rows-stop :
      (version : ℤ) (select : ObjectRow → Bool)
      → ((r : ObjectRow) → select r ≡ true → eqb_ℤ r.project p ≡ true)
      → Leaves p (set_rows select (stop_at version))
  set_rows-stop version select h = set_rows-Leaves p select (stop_at version) h (λ r. refl)

  is_live_at_here :
      (path : Bytes) (r : ObjectRow) → is_live_at p path r ≡ true → eqb_ℤ r.project p ≡ true
  unfolding is_live_at
  is_live_at_here path r h = ground arith

  is_previous_here :
      (version : ℤ) (paths : List Bytes) (r : ObjectRow)
      → is_previous p version paths r ≡ true
      → eqb_ℤ r.project p ≡ true
  unfolding is_previous
  is_previous_here version paths r h = ground arith

  is_live_pack_here :
      (parent : Bytes) (r : ObjectRow) → is_live_pack p parent r ≡ true → eqb_ℤ r.project p ≡ true
  unfolding is_live_pack
  is_live_pack_here parent r h = ground arith

  module _ (codec : Codec) (rows : List ObjectRow) where
    update_object-Stays :
        (version : ℤ) (object : Object) → Stays p rows (update_object codec p version object)
    unfolding update_object new_row
    update_object-Stays version object =
        Stays->>= p rows _ _ (Stays-exec_outside p rows _ (insert_contents-Leaves _ _)) λ _ _ _.
          Stays->>= p rows _ _ (Stays-has_row p rows _ (insert_object-Leaves _ refl))
            λ inserted _ _. Stays-if p rows _ _ (not inserted) (Stays-pure p rows false) (
              Stays->>= p rows _ _
                (Stays-exec p rows _
                  (set_rows-stop version _ (is_previous_here version (previous_paths object.path))))
                λ _ _ _. Stays-pure p rows true)

    write_object-Stays :
        (version : ℤ) (object : Object) → Stays p rows (write_object codec p version object)
    unfolding write_object delete_object
    write_object-Stays version object =
        Stays-if p rows _ _ object.deleted
          (Stays->>= p rows _ _
            (Stays-exec p rows _ (set_rows-stop version _ (is_live_at_here object.path)))
            λ _ _ _. Stays-pure p rows true)
          (update_object-Stays version object)

    replace_pack-Stays :
        (version : ℤ) (parent : Bytes) (pack : Option Bytes)
        → Stays p rows (replace_pack codec p version parent pack)
    unfolding replace_pack pack_row
    replace_pack-Stays version parent none =
        Stays-exec p rows _ (set_rows-stop version _ (is_live_pack_here parent))
    replace_pack-Stays version parent (some updated) =
        Stays->>= p rows _ _ (Stays-exec_outside p rows _ (insert_contents-Leaves _ _)) λ _ _ _.
          Stays->>= p rows _ _
            (Stays-exec p rows _ (set_rows-stop version _ (is_live_pack_here parent)))
            λ _ _ _. Stays-exec p rows _ (insert_strictly-Leaves _ refl)

    changed-Stays :
        (version : ℤ) (parent : Bytes) (hash : Hash) (pack : Result (Option Bytes))
        → Stays p rows (replace_if_changed codec p version parent hash pack)
    changed-Stays version parent hash (err e) = Stays-raise p rows Bool e
    changed-Stays version parent hash (ok pack) =
        Stays-if p rows _ _
          (bytes_eq hash (codec.hash_content (bytes_of codec p version parent pack)))
          (Stays-pure p rows false)
          (Stays->>= p rows _ _ (replace_pack-Stays version parent pack)
            λ _ _ _. Stays-pure p rows true)

    pack-Stays :
        (version : ℤ) (parent : Bytes) (updates : List Object)
        → Stays p rows (update_packed_objects codec p version parent updates)
    unfolding update_packed_objects
    pack-Stays version parent updates =
        Stays->>= p rows _ _ (Stays-exec p rows _ (select_pack-Leaves parent))
          λ found _ _. changed-Stays version parent found.0 (updated_pack codec found.1 updates)

    pub write_objects-Stays :
        (version : ℤ) (objects : List Object) (changed : Bool)
        → Stays p rows (write_objects codec p version objects changed)
    unfolding write_objects
    write_objects-Stays version [] changed = Stays-pure p rows changed
    write_objects-Stays version (object ∷ objects) changed =
        Stays->>= p rows _ _ (Stays-catch p rows _ _ (write_object-Stays version object))
          λ c _ _. write_objects-Stays version objects (changed || c)

    pub write_packs-Stays :
        (version : ℤ) (packed : List (Bytes × List Object)) (changed : Bool)
        → Stays p rows (write_packs codec p version packed changed)
    unfolding write_packs
    write_packs-Stays version [] changed = Stays-pure p rows changed
    write_packs-Stays version ((parent, objects) ∷ packed) changed =
        Stays->>= p rows _ _ (Stays-catch p rows _ _ (pack-Stays version parent objects))
          λ c _ _. write_packs-Stays version packed (changed || c)
