-- ===== src/Db/History.antt =====
-- What the rows of dl.objects mean: the tree of a project at each of its versions. This is the
-- specification that the statements of internal/db are held to.
pub mod Trees
pub mod Stops
use mathlib.Core.Option
use dateilager.Prelude.{
  ◌⊎◌, inl, inr, refl, sym, ap, ◌∙◌, arith, bytes_eq_iff, find-cases, ◌≡◌, Bool, true, ◌&&◌, Option,
  none, some, List, ℤ, leb_ℤ, ltb_ℤ, eqb_ℤ, leb, ltb, ◌==◌, Bytes, bytes_eq, find, In,
}
use dateilager.Db.Schema.{Hash, ObjectRow}
use dateilager.Db.Query.{outlives}

-- A row is part of the tree of project `p` at version `v`.
unfoldable pub is_visible : ℤ → ℤ → ObjectRow → Bool
is_visible p v r = eqb_ℤ r.project p && (leb_ℤ r.start_version v && outlives v r.stop_version)

-- What a tree holds at a path.
pub record Entry : Type 0 where
  pub hash : Hash
  pub mode : ℤ
  pub size : ℤ
  pub packed : Bool

abbrev pub row_entry : ObjectRow → Entry
row_entry r = record { hash = r.hash; mode = r.mode; size = r.size; packed = r.packed }

-- A tree: at most one entry at each path.
abbrev pub Tree : Type 0
Tree = Bytes → Option Entry

abbrev pub is_visible_at : ℤ → ℤ → Bytes → ObjectRow → Bool
is_visible_at p v path r = is_visible p v r && bytes_eq r.path path

unfoldable pub tree_at : List ObjectRow → ℤ → ℤ → Tree
tree_at rows p v path = Option.map row_entry (find (is_visible_at p v path) rows)

-- No version of the project shows two different rows at one path.
pub record OneLive (p : ℤ) (rows : List ObjectRow) : Type 0 where
  pub same :
      (v : ℤ) (r q : ObjectRow)
      → In r rows
      → In q rows
      → is_visible p v r ≡ true
      → is_visible p v q ≡ true
      → r.path ≡ q.path
      → r ≡ q

module _ (rows : List ObjectRow) (p v : ℤ) (path : Bytes) where
  -- What a tree holds at a path, with the row that shows it.
  pub tree_at-cases :
      ((tree_at rows p v path ≡ none)
        × ((r : ObjectRow) → In r rows → is_visible p v r ≡ true → r.path ≡ path → ⊥))
      ⊎ ((r : ObjectRow) × (tree_at rows p v path ≡ some (row_entry r))
          × In r rows
          × (is_visible p v r ≡ true)
          × (r.path ≡ path))
  unfolding tree_at
  tree_at-cases = elim (find-cases (is_visible_at p v path) rows) [
    | inl (n, none_visible) ↦
        inl (rw n refl, λ r m h e. cc (none_visible r m, h, (bytes_eq_iff r.path path).1 e))
    | inr (r, s, m, h) ↦
        let shown : (is_visible p v r ≡ true) × (bytes_eq r.path path ≡ true) = ground arith in
        inr (r, rw s refl, m, shown.0, (bytes_eq_iff r.path path).0 shown.1)
  ]

  -- The entry of a row that the version shows.
  pub tree_at-visible :
      OneLive p rows
      → (r : ObjectRow) → In r rows
      → is_visible p v r ≡ true
      → r.path ≡ path
      → tree_at rows p v path ≡ some (row_entry r)
  tree_at-visible one r m h e = elim tree_at-cases [
    | inl (n, none_visible) ↦ absurd (none_visible r m h e)
    | inr (q, s, m', h', e') ↦
        s ∙ ap (λ x. some (row_entry x)) (one.same v q r m' m h' h (e' ∙ sym e))
  ]
