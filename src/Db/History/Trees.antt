-- ===== src/Db/History/Trees.antt =====
-- How the trees of the versions change when rows are filtered, added or rewritten.
use mathlib.Core.Option
use dateilager.Prelude.{
  ◌≡◌, refl, ap, ◌∙◌, Bool, true, false, Option, none, some, List, ◌∷◌, map, arith, ℤ, Bytes,
  bytes_eq, filter, find, In, find-filter, find-map, find_congr,
}
use dateilager.Db.Schema.{ObjectRow}
use dateilager.Db.History.{row_entry, is_visible, is_visible_at, tree_at}

module _ (p v : ℤ) (path : Bytes) where
  pub tree_at-filter :
      (q : ObjectRow → Bool) (rows : List ObjectRow)
      → ((r : ObjectRow) → In r rows → is_visible p v r ≡ true → q r ≡ true)
      → tree_at (filter q rows) p v path ≡ tree_at rows p v path
  unfolding tree_at
  tree_at-filter q rows h =
      ap (Option.map row_entry)
        (find-filter (is_visible_at p v path) q rows (λ r m s. h r m (ground arith)))

  map_entries :
      (f : ObjectRow → ObjectRow)
      → ((r : ObjectRow) → row_entry (f r) ≡ row_entry r)
      → (o : Option ObjectRow) → Option.map row_entry (Option.map f o) ≡ Option.map row_entry o
  map_entries f same none = refl
  map_entries f same (some r) = ap some (same r)

  -- Rows are rewritten without a change of their entries, and show at `v` what they showed at `w`.
  pub tree_at-map :
      (f : ObjectRow → ObjectRow) (rows : List ObjectRow) (w : ℤ)
      → ((r : ObjectRow) → row_entry (f r) ≡ row_entry r)
      → ((r : ObjectRow) → (f r).path ≡ r.path)
      → ((r : ObjectRow) → In r rows → is_visible p v (f r) ≡ is_visible p w r)
      → tree_at (map f rows) p v path ≡ tree_at rows p w path
  unfolding tree_at
  tree_at-map f rows w same paths shown =
      ap (Option.map row_entry) (find-map (is_visible_at p v path) f rows)
      ∙ map_entries f same _
      ∙ ap (Option.map row_entry)
          (find_congr _ (is_visible_at p w path) rows λ r m. rw (shown r m, paths r))

  -- The same rows at two versions that show the same of them.
  pub tree_at_congr :
      (rows : List ObjectRow) (w : ℤ)
      → ((r : ObjectRow) → In r rows → is_visible p v r ≡ is_visible p w r)
      → tree_at rows p v path ≡ tree_at rows p w path
  unfolding tree_at
  tree_at_congr rows w shown =
      ap (Option.map row_entry)
        (find_congr (is_visible_at p v path) (is_visible_at p w path) rows λ r m. rw (shown r m))

  -- A new row that is not shown.
  pub tree_at-hidden :
      (r : ObjectRow) (rows : List ObjectRow)
      → is_visible p v r ≡ false
      → tree_at (r ∷ rows) p v path ≡ tree_at rows p v path
  unfolding tree_at find
  tree_at-hidden r rows h = rw h refl

-- A new row at another path.
pub tree_at-other_path :
    (p v : ℤ) (path : Bytes) (r : ObjectRow) (rows : List ObjectRow)
    → bytes_eq r.path path ≡ false
    → tree_at (r ∷ rows) p v path ≡ tree_at rows p v path
unfolding tree_at find
tree_at-other_path p v path r rows h =
    let unseen : is_visible_at p v path r ≡ false = ground arith in rw unseen refl
