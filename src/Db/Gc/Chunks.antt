-- ===== src/Db/Gc/Chunks.antt =====
-- internal/db/gc.go, chunk: the slices hold all items in order, and none is longer than asked for.
use dateilager.Prelude.{
  ℕ, zero, suc, ◌≤◌, ◌<◌, ◌≡◌, ap, ◌∙◌, List, [], ◌∷◌, ◌++◌, arith, ltb, length, take, drop,
  take-append-drop, length-drop, length-take, append-nil, All, Bool-cases, inl, inr,
}
use dateilager.Db.Gc.{chunk, chunk_from}

-- The slices one after another.
abbrev pub concat {ℓ} : {A : Type ℓ} → List (List A) → List A
concat [] = []
concat (xs ∷ xss) = xs ++ concat xss

module _ {ℓ} {A : Type ℓ} where
  concat-chunk_from : (fuel size : ℕ) (items : List A) → concat (chunk_from fuel size items) ≡ items
  unfolding chunk_from
  concat-chunk_from zero size items = append-nil items
  concat-chunk_from (suc fuel) size items = elim (Bool-cases (ltb size (length items))) [
    | inl e ↦ rw e (
        ap (λ xs. take size items ++ xs) (concat-chunk_from fuel size (drop size items))
        ∙ take-append-drop size items)
    | inr e ↦ rw e (append-nil items)
  ]

  chunk_from_bounds :
      (fuel size : ℕ) (items : List A)
      → 0 < size
      → length items ≤ fuel
      → All (λ xs. length xs ≤ size) (chunk_from fuel size items)
  unfolding chunk_from
  chunk_from_bounds zero size items pos h = omega arith
  chunk_from_bounds (suc fuel) size items pos h = elim (Bool-cases (ltb size (length items))) [
    | inl e ↦
        let longer : size < length items = ground arith in
        let shorter : length (drop size items) ≤ fuel = omega (arith, length-drop size items) in
        rw e (
          omega (arith, length-take size items),
          chunk_from_bounds fuel size (drop size items) pos shorter,
        )
    | inr e ↦ rw e (ground arith, tt)
  ]

-- The slices of a chunked list, one after another, are the list, and for a positive size no slice
-- is longer than the size.
pub chunk_lem {ℓ} :
    {A : Type ℓ} (items : List A) (size : ℕ)
    → 0 < size
    → (concat (chunk items size) ≡ items) × All (λ xs. length xs ≤ size) (chunk items size)
unfolding chunk
chunk_lem items size pos = (
  concat-chunk_from (length items) size items,
  chunk_from_bounds (length items) size items pos (omega arith),
)
