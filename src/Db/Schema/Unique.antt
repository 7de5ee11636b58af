-- ===== src/Db/Schema/Unique.antt =====
-- The unique indexes of dl.objects: which changes of the rows keep them.
use dateilager.Prelude.{
  eqb_ℤ, bytes_eq, ◌≡◌, refl, Bool, true, false, List, [], ◌∷◌, map, arith, any, filter,
  bytes_eq_refl, In, In-map, In-filter, any-false, none→any_false, Bool-cases, inl, inr, none,
}
use dateilager.Db.Schema.{ObjectRow, clash, is_unique}

-- A row clashes with itself.
pub clash_refl : (r : ObjectRow) → clash r r ≡ true
unfolding clash
clash_refl r = ground (arith, bytes_eq_refl r.path, bytes_eq_refl r.hash)

-- What two rows that clash have in common.
pub clash_facts :
    (r q : ObjectRow)
    → clash r q ≡ true
    → (eqb_ℤ r.project q.project ≡ true)
      × (bytes_eq r.path q.path ≡ true)
      × (r.stop_version ≡ none → q.stop_version ≡ none)
      × (q.stop_version ≡ none → r.stop_version ≡ none)
unfolding clash
clash_facts r q h = ground arith

pub is_unique-filter :
    (p : ObjectRow → Bool) (rows : List ObjectRow)
    → is_unique rows ≡ true
    → is_unique (filter p rows) ≡ true
unfolding is_unique filter
is_unique-filter p [] u = refl
is_unique-filter p (r ∷ rows) u =
    let rest = is_unique-filter p rows (ground arith) in
    let apart : any (clash r) rows ≡ false = ground arith in
    let apart' =
      none→any_false (clash r) (filter p rows)
        (λ x m. any-false (clash r) rows x apart ((In-filter p x rows).0 m).0) in
    elim (Bool-cases (p r)) [ inl e ↦ rw (e, apart') rest | inr e ↦ rw e rest ]

-- A change after which rows clash only if they did before.
pub is_unique-map :
    (f : ObjectRow → ObjectRow) (rows : List ObjectRow)
    → ((r q : ObjectRow) → In r rows → In q rows → clash (f r) (f q) ≡ true → clash r q ≡ true)
    → is_unique rows ≡ true
    → is_unique (map f rows) ≡ true
unfolding is_unique
is_unique-map f [] h u = refl
is_unique-map f (r ∷ rows) h u =
    let rest = is_unique-map f rows (λ x y mx my. h x y (inr mx) (inr my)) (ground arith) in
    let apart : any (clash r) rows ≡ false = ground arith in
    let apart' =
      none→any_false (clash (f r)) (map f rows)
        (λ y m. apart_image y ((In-map f y rows).0 m) apart) in
    rw apart' rest
  where
    apart_image :
        (y : ObjectRow)
        → ((x : ObjectRow) × In x rows × (y ≡ f x))
        → any (clash r) rows ≡ false
        → clash (f r) y ≡ false
    apart_image y (x, m, e) a = elim (Bool-cases (clash (f r) (f x))) [
      | inl c ↦ cc (h r x (inl refl) (inr m) c, any-false (clash r) rows x a m)
      | inr c ↦ rw e c
    ]
