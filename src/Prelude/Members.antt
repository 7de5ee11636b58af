-- ===== src/Prelude/Members.antt =====
-- Membership by recursion, and what filters, maps and searches do to it.
use mathlib.Core.Path.{◌≡◌, refl, ap, ◌∙◌}
use mathlib.Core.Logic.{◌↔◌, ◌⊎◌, inl, inr}
use mathlib.Core.Bool.{Bool, true, false}
use mathlib.Core.Option
use mathlib.Core.Option.{Option, none, some}
use mathlib.Core.List.{List, [], ◌∷◌, ◌++◌, map}
use native.Mathlib.Omega.{arith}
use dateilager.Prelude.Tests.{Bool-cases, if◌then◌else◌}
use dateilager.Prelude.Lists.{filter, any, all, find}

module _ {A : Type 0} where
  abbrev pub In : A → List A → Type 0
  In x [] = ⊥
  In x (y ∷ ys) = (x ≡ y) ⊎ In x ys

  pub In-append : (x : A) (xs ys : List A) → In x (xs ++ ys) ↔ (In x xs ⊎ In x ys)
  In-append x [] ys = (λ h. inr h, λ h. elim h [ inl e ↦ absurd e | inr e ↦ e ])
  In-append x (y ∷ xs) ys = (
    λ h. elim h [
      | inl e ↦ inl (inl e)
      | inr m ↦ elim ((In-append x xs ys).0 m) [ inl a ↦ inl (inr a) | inr b ↦ inr b ]
    ],
    λ h. elim h [
      | inl (inl e) ↦ inl e
      | inl (inr m) ↦ inr ((In-append x xs ys).1 (inl m))
      | inr m ↦ inr ((In-append x xs ys).1 (inr m))
    ],
  )

  keep-In :
      (p : A → Bool) (x y : A) (rest : List A)
      → In x (if p y then y ∷ rest else rest) ↔ (((x ≡ y) × (p x ≡ true)) ⊎ In x rest)
  keep-In p x y rest = elim (Bool-cases (p y)) [
    | inl e ↦ (
      λ h. elim (rw e at h) [ inl q ↦ inl (q, ap p q ∙ e) | inr m ↦ inr m ],
      λ h. rw e (elim h [ inl q ↦ inl q.0 | inr m ↦ inr m ]),
    )
    | inr e ↦ (λ h. inr (rw e at h), λ h. rw e (elim h [ inl q ↦ cc (ap p q.0, q.1) | inr m ↦ m ]))
  ]

  pub In-filter :
      (p : A → Bool) (x : A) (xs : List A) → In x (filter p xs) ↔ (In x xs × (p x ≡ true))
  unfolding filter
  In-filter p x [] = (λ h. absurd h, λ h. absurd h.0)
  In-filter p x (y ∷ xs) = (
    λ h. elim ((keep-In p x y (filter p xs)).0 h) [
      | inl q ↦ (inl q.0, q.1)
      | inr m ↦ let r = (In-filter p x xs).0 m in (inr r.0, r.1)
    ],
    λ h.
        (keep-In p x y (filter p xs)).1
          (elim h.0 [ inl e ↦ inl (e, h.1) | inr m ↦ inr ((In-filter p x xs).1 (m, h.1)) ]),
  )

  pub any→In : (p : A → Bool) (xs : List A) → any p xs ≡ true → (x : A) × In x xs × (p x ≡ true)
  unfolding any
  any→In p [] h = cc
  any→In p (y ∷ xs) h = elim (Bool-cases (p y)) [
    | inl e ↦ (y, inl refl, e)
    | inr e ↦ let r = any→In p xs (rw e at h) in (r.0, inr r.1, r.2)
  ]

  pub In→any : (p : A → Bool) (xs : List A) (x : A) → In x xs → p x ≡ true → any p xs ≡ true
  unfolding any
  In→any p [] x m h = absurd m
  In→any p (y ∷ xs) x (inl e) h = ground (arith, ap p e)
  In→any p (y ∷ xs) x (inr m) h = ground (arith, In→any p xs x m h)

  pub any-false : (p : A → Bool) (xs : List A) (x : A) → any p xs ≡ false → In x xs → p x ≡ false
  any-false p xs x h m = elim (Bool-cases (p x)) [ inl e ↦ cc (In→any p xs x m e) | inr e ↦ e ]

  pub none→any_false :
      (p : A → Bool) (xs : List A) → ((x : A) → In x xs → p x ≡ false) → any p xs ≡ false
  unfolding any
  none→any_false p [] h = refl
  none→any_false p (y ∷ xs) h =
      ground (arith, h y (inl refl), none→any_false p xs (λ x m. h x (inr m)))

  pub all→In : (p : A → Bool) (xs : List A) (x : A) → all p xs ≡ true → In x xs → p x ≡ true
  unfolding all
  all→In p [] x h m = absurd m
  all→In p (y ∷ xs) x h (inl e) = ground (arith, ap p e)
  all→In p (y ∷ xs) x h (inr m) = all→In p xs x (ground arith) m

  -- What a search returns, with the reason.
  pub find-cases :
      (p : A → Bool) (xs : List A)
      → ((find p xs ≡ none) × ((x : A) → In x xs → p x ≡ false))
        ⊎ ((x : A) × (find p xs ≡ some x) × In x xs × (p x ≡ true))
  unfolding find
  find-cases p [] = inl (refl, λ x m. absurd m)
  find-cases p (y ∷ xs) = elim (Bool-cases (p y)) [
    | inl e ↦ inr (y, rw e, inl refl, e)
    | inr e ↦ elim (find-cases p xs) [
      | inl (n, f) ↦ inl (rw e n, λ x m. elim m [ inl q ↦ ap p q ∙ e | inr m' ↦ f x m' ])
      | inr (x, s, m, t) ↦ inr (x, rw e s, inr m, t)
    ]
  ]

module _ {A B : Type 0} where
  pub In-map : (f : A → B) (y : B) (xs : List A) → In y (map f xs) ↔ ((x : A) × In x xs × (y ≡ f x))
  In-map f y [] = (λ h. absurd h, λ h. absurd h.1)
  In-map f y (x ∷ xs) = (
    λ h. elim h [
      | inl e ↦ (x, inl refl, e)
      | inr m ↦ let r = (In-map f y xs).0 m in (r.0, inr r.1, r.2)
    ],
    λ h. elim h.1 [ inl e ↦ inl (h.2 ∙ ap f e) | inr m ↦ inr ((In-map f y xs).1 (h.0, m, h.2)) ],
  )

module _ {A : Type 0} where
  pub find-filter :
      (p q : A → Bool) (xs : List A)
      → ((x : A) → In x xs → p x ≡ true → q x ≡ true)
      → find p (filter q xs) ≡ find p xs
  unfolding find filter
  find-filter p q [] h = refl
  find-filter p q (y ∷ xs) h =
      let rest = find-filter p q xs (λ x m. h x (inr m)) in
      elim (Bool-cases (q y)) [
        | inl e ↦ rw e (rw rest)
        | inr e ↦ elim (Bool-cases (p y)) [
          | inl k ↦ cc (h y (inl refl) k, e)
          | inr k ↦ rw (e, k) rest
        ]
      ]

  pub find_congr :
      (p q : A → Bool) (xs : List A) → ((x : A) → In x xs → p x ≡ q x) → find p xs ≡ find q xs
  unfolding find
  find_congr p q [] h = refl
  find_congr p q (y ∷ xs) h = rw (h y (inl refl), find_congr p q xs (λ x m. h x (inr m)))

module _ {A B : Type 0} where
  pub find-map :
      (p : B → Bool) (f : A → B) (xs : List A)
      → find p (map f xs) ≡ Option.map f (find (λ x. p (f x)) xs)
  unfolding find
  find-map p f [] = refl
  find-map p f (y ∷ xs) = elim (Bool-cases (p (f y))) [
    | inl e ↦ rw e refl
    | inr e ↦ rw e (find-map p f xs)
  ]
