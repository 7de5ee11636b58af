-- ===== src/Db/Tar/Merge/Seen.antt =====
-- internal/db/tar.go, updateObjects: the paths that were seen, and the search for the next update.
use dateilager.Prelude.{
  ℕ, zero, suc, ◌+◌, ◌≤◌, ◌<◌, ◌≡◌, refl, sym, ◌∙◌, ap, ◌⊎◌, inl, inr, true, false, none, some,
  List, [], ◌∷◌, ◌++◌, arith, Bytes, bytes_eq_refl, any, all, length, take, Bool-cases,
  if◌then◌else◌,
}
use dateilager.Db.Update.{Object}
use dateilager.Db.Tar.{has_seen, first_unseen}
use dateilager.Db.Tar.Merge.{unless_deleted, added}

-- The turns that the stream still takes for updates.
abbrev pub unseen : List Bytes → List Object → ℕ
unseen seen [] = 0
unseen seen (o ∷ os) = let rest = unseen seen os in if has_seen seen o then rest else suc rest

-- All of a prefix was seen, so nothing of it is added.
pub added-append :
    (seen : List Bytes) (xs ys : List Object)
    → all (has_seen seen) xs ≡ true
    → added seen (xs ++ ys) ≡ added seen ys
unfolding added all
added-append seen [] ys h = refl
added-append seen (x ∷ xs) ys h = ground (arith, added-append seen xs ys)

seen-more :
    (path : Bytes) (seen : List Bytes) (o : Object)
    → has_seen seen o ≡ true
    → has_seen (path ∷ seen) o ≡ true
unfolding any
seen-more path seen o h = ground arith

pub seen_more-all :
    (path : Bytes) (seen : List Bytes) (xs : List Object)
    → all (has_seen seen) xs ≡ true
    → all (has_seen (path ∷ seen)) xs ≡ true
unfolding all
seen_more-all path seen [] h = refl
seen_more-all path seen (x ∷ xs) h =
    ground (arith, seen-more path seen x, seen_more-all path seen xs)

pub unseen-more :
    (path : Bytes) (seen : List Bytes) (xs : List Object) → unseen (path ∷ seen) xs ≤ unseen seen xs
unseen-more path seen [] = omega arith
unseen-more path seen (x ∷ xs) = ground (arith, seen-more path seen x, unseen-more path seen xs)

unseen-append :
    (seen : List Bytes) (xs ys : List Object)
    → unseen seen (xs ++ ys) ≡ unseen seen xs + unseen seen ys
unseen-append seen [] ys = omega arith
unseen-append seen (x ∷ xs) ys = ground (arith, unseen-append seen xs ys)

-- Where the search for the next update ends.
pub record Found (seen : List Bytes) (start : ℕ) (xs : List Object) (idx : ℕ) (o : Object)
    : Type 0 where
  pub before : List Object
  pub after : List Object
  pub split_at : xs ≡ before ++ o ∷ after
  pub seen_before : all (has_seen seen) before ≡ true
  pub new : has_seen seen o ≡ false
  pub index : idx ≡ start + length before

pub first_unseen-cases :
    (seen : List Bytes) (start : ℕ) (xs : List Object)
    → ((first_unseen seen start xs ≡ none) × (all (has_seen seen) xs ≡ true))
      ⊎ ((idx : ℕ) × (o : Object) × (first_unseen seen start xs ≡ some (idx, o))
          × Found seen start xs idx o)
unfolding first_unseen all
first_unseen-cases seen start [] = inl (refl, refl)
first_unseen-cases seen start (x ∷ xs) = elim (Bool-cases (has_seen seen x)) [
  | inr n ↦ inr (
    start,
    x,
    rw n refl,
    record {
      before = [];
      after = xs;
      split_at = refl;
      seen_before = refl;
      new = n;
      index = omega arith;
    },
  )
  | inl s ↦ elim (first_unseen-cases seen (suc start) xs) [
    | inl (e, a) ↦ inl (rw (s, e) refl, rw (s, a) refl)
    | inr (idx, o, e, f) ↦ inr (
      idx,
      o,
      rw (s, e) refl,
      record {
        before = x ∷ f.before;
        after = f.after;
        split_at = ap (λ ys. x ∷ ys) f.split_at;
        seen_before = rw (s, f.seen_before) refl;
        new = f.new;
        index = omega (arith, f.index);
      },
    )
  ]
]

pub added_seen :
    (seen : List Bytes) (xs : List Object) → all (has_seen seen) xs ≡ true → added seen xs ≡ []
unfolding added all
added_seen seen [] h = refl
added_seen seen (x ∷ xs) h = ground (arith, added_seen seen xs)

pub all-append :
    (seen : List Bytes) (xs ys : List Object)
    → all (has_seen seen) xs ≡ true
    → all (has_seen seen) ys ≡ true
    → all (has_seen seen) (xs ++ ys) ≡ true
unfolding all
all-append seen [] ys h k = k
all-append seen (x ∷ xs) ys h k = ground (arith, all-append seen xs ys)

pub all-take :
    (seen : List Bytes) (n : ℕ) (xs ys : List Object)
    → n ≤ length xs
    → all (has_seen seen) xs ≡ true
    → all (has_seen seen) (take n (xs ++ ys)) ≡ true
unfolding all
all-take seen zero xs ys le h = refl
all-take seen (suc n) [] ys le h = let no : ⊥ = omega arith in absurd no
all-take seen (suc n) (x ∷ xs) ys le h = ground (arith, all-take seen n xs ys)

-- An update that was not seen, after ones that were.
module _ (seen : List Bytes) (before after : List Object) (o : Object)
    (seen_before : all (has_seen seen) before ≡ true) (new : has_seen seen o ≡ false) where
  seen_itself : has_seen (o.path ∷ seen) o ≡ true
  unfolding any
  seen_itself = ground (arith, bytes_eq_refl o.path)

  pub added_found :
      added seen (before ++ o ∷ after)
      ≡ unless_deleted o ++ added (o.path ∷ seen) (before ++ o ∷ after)
  unfolding added
  added_found =
      let here : added seen (o ∷ after) ≡ unless_deleted o ++ added (o.path ∷ seen) after =
        rw new refl in
      let there : added (o.path ∷ seen) (o ∷ after) ≡ added (o.path ∷ seen) after =
        rw seen_itself refl in
      let skipped =
        added-append (o.path ∷ seen) before (o ∷ after)
          (seen_more-all o.path seen before seen_before) in
      added-append seen before (o ∷ after) seen_before
      ∙ here
      ∙ ap (λ xs. unless_deleted o ++ xs) (sym (skipped ∙ there))

  pub unseen_found :
      unseen (o.path ∷ seen) (before ++ o ∷ after) < unseen seen (before ++ o ∷ after)
  unseen_found =
      let here : unseen seen (o ∷ after) ≡ suc (unseen seen after) = rw new refl in
      let there : unseen (o.path ∷ seen) (o ∷ after) ≡ unseen (o.path ∷ seen) after =
        rw seen_itself refl in
      omega (
        arith,
        here,
        there,
        unseen-append seen before (o ∷ after),
        unseen-append (o.path ∷ seen) before (o ∷ after),
        unseen-more o.path seen before,
        unseen-more o.path seen after,
      )
