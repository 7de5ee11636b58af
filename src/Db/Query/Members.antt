-- ===== src/Db/Query/Members.antt =====
-- Which objects the built query returns: an object stands in the result exactly if some row gives it.
use dateilager.Prelude.{
  ◌≡◌, ◌↔◌, ◌⊎◌, inl, inr, Bool, true, List, [], ◌∷◌, map, filter, In, In-filter, In-map,
  Bool-cases,
}
use dateilager.Db.Schema.{ObjectRow}
use dateilager.Db.Query.{DbObject, insert_by_path, order_by_path, bytes_le}

In-insert_by_path :
    (x o : DbObject) (xs : List DbObject) → In x (insert_by_path o xs) ↔ ((x ≡ o) ⊎ In x xs)
unfolding insert_by_path
In-insert_by_path x o [] = (λ h. h, λ h. h)
In-insert_by_path x o (y ∷ xs) = elim (Bool-cases (bytes_le o.path y.path)) [
  | inl e ↦ (λ h. rw e at h, λ h. rw e h)
  | inr e ↦ (
    λ h. elim (rw e at h) [
      | inl q ↦ inr (inl q)
      | inr m ↦ elim ((In-insert_by_path x o xs).0 m) [ inl q ↦ inl q | inr m' ↦ inr (inr m') ]
    ],
    λ h. rw e (elim h [
      | inl q ↦ inr ((In-insert_by_path x o xs).1 (inl q))
      | inr (inl q) ↦ inl q
      | inr (inr m) ↦ inr ((In-insert_by_path x o xs).1 (inr m))
    ]),
  )
]

pub In-order_by_path : (x : DbObject) (xs : List DbObject) → In x (order_by_path xs) ↔ In x xs
unfolding order_by_path
In-order_by_path x [] = (λ h. h, λ h. h)
In-order_by_path x (y ∷ xs) = (
  λ h. elim ((In-insert_by_path x y (order_by_path xs)).0 h) [
    | inl q ↦ inl q
    | inr m ↦ inr ((In-order_by_path x xs).0 m)
  ],
  λ h.
      (In-insert_by_path x y (order_by_path xs)).1
        (elim h [ inl q ↦ inl q | inr m ↦ inr ((In-order_by_path x xs).1 m) ]),
)

-- The objects that a filter and a selection of columns give, sorted.
module _ (keep select : ObjectRow → Bool) (column : ObjectRow → DbObject)
    (rows : List ObjectRow) where
  abbrev pub FromRow : DbObject → Type 0
  FromRow o = (r : ObjectRow) × In r rows × (keep r ≡ true) × (select r ≡ true) × (o ≡ column r)

  pub In-selected :
      (o : DbObject)
      → In o (order_by_path (map column (filter select (filter keep rows)))) ↔ FromRow o
  In-selected o = (
    λ h.
        let (r, m, e) = (In-map column o _).0 ((In-order_by_path o _).0 h) in
        let (m', s) = (In-filter select r _).0 m in
        let (m'', k) = (In-filter keep r rows).0 m' in (r, m'', k, s, e),
    λ (r, m, k, s, e). (In-order_by_path o _).1 (
        (In-map column o _).1
          (r, (In-filter select r _).1 ((In-filter keep r rows).1 (m, k), s), e)),
  )
