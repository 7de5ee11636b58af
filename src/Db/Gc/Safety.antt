-- ===== src/Db/Gc/Safety.antt =====
-- internal/db/gc.go: what garbage collection leaves untouched.
use dateilager.Prelude.{
  subst, sym, ◌⊎◌, inl, inr, ◌≡◌, ◌≢◌, refl, true, false, not, ◌&&◌, ◌||◌, some, List, [], ◌∷◌,
  ◌++◌, arith, ℤ, ◌+ℤ◌, ◌≤ℤ◌, -ℤ_parts, pos, +ℤ_parts, ltb_ℤ, eqb_ℤ, eqb_ℤ_iff, Bytes, bytes_eq,
  find, filter, In, In-filter, any, ◌↔◌, length, ◌==◌,
}
use dateilager.Db.Schema.{Hash, ProjectRow, ObjectRow, ContentRow, Tables, is_project}
use dateilager.Db.History.{is_visible, tree_at}
use dateilager.Db.History.Trees.{tree_at-filter}
use dateilager.Db.Session.{Session, calm, ◌>>=◌}
use dateilager.Db.Gc.{
  is_collected, is_before_kept, delete_collected, gc_project_objects, is_missing, delete_missing,
  gc_chunks, gc_content_hashes, chunk,
}
use dateilager.Db.Gc.Chunks.{concat, chunk_lem}

kept_row :
    (row : ProjectRow) (p keep from_version w : ℤ) (r : ObjectRow)
    → row.latest_version ≤ℤ w +ℤ keep
    → is_visible p w r ≡ true
    → not (
        eqb_ℤ r.project p && ltb_ℤ from_version r.start_version && is_before_kept (some row) keep r)
      ≡ true
unfolding is_visible
kept_row row p keep from_version w r le h =
    ground (arith, -ℤ_parts row.latest_version keep, +ℤ_parts w keep)

kept_visible :
    (projects : List ProjectRow) (row : ProjectRow) (p keep from_version w : ℤ) (r : ObjectRow)
    → find (is_project p) projects ≡ some row
    → row.latest_version ≤ℤ w +ℤ keep
    → is_visible p w r ≡ true
    → not (is_collected projects p keep from_version r) ≡ true
unfolding is_collected
kept_visible projects row p keep from_version w r e le h =
    rw (e, is_collected) (kept_row row p keep from_version w r le h)

other_project_visible :
    (projects : List ProjectRow) (p keep from_version q w : ℤ) (r : ObjectRow)
    → q ≢ p
    → is_visible q w r ≡ true
    → not (is_collected projects p keep from_version r) ≡ true
unfolding is_visible is_collected
other_project_visible projects p keep from_version q w r ne h =
    ground (arith, eqb_ℤ_iff q p, eqb_ℤ_iff r.project p, eqb_ℤ_iff r.project q)

-- The session after GcProjectObjects, when no statement fails.
abbrev pub after_gc : ℤ → ℤ → ℤ → Tables → Session
after_gc p keep from_version t = (gc_project_objects p keep from_version (calm t t)).1

-- If its project exists and no statement fails, GcProjectObjects keeps the project's tree at each
-- version that is at most `keep` versions before the latest one.
tree_at-gc_kept_version :
    (p keep from_version w : ℤ) (path : Bytes) (t : Tables) (row : ProjectRow)
    → find (is_project p) t.projects ≡ some row
    → row.latest_version ≤ℤ w +ℤ keep
    → tree_at (after_gc p keep from_version t).committed.objects p w path
      ≡ tree_at t.objects p w path
unfolding gc_project_objects delete_collected ◌>>=◌ filter
tree_at-gc_kept_version p keep from_version w path t row e le =
    tree_at-filter p w path _ t.objects
      λ r m. kept_visible t.projects row p keep from_version w r e le

-- If no statement fails, GcProjectObjects keeps the trees of all other projects at all versions.
tree_at-gc_other_project :
    (p keep from_version q w : ℤ) (path : Bytes) (t : Tables)
    → q ≢ p
    → tree_at (after_gc p keep from_version t).committed.objects q w path
      ≡ tree_at t.objects q w path
unfolding gc_project_objects delete_collected ◌>>=◌ filter
tree_at-gc_other_project p keep from_version q w path t ne =
    tree_at-filter q w path _ t.objects
      λ r m. other_project_visible t.projects p keep from_version q w r ne

-- If no statement fails, GcProjectObjects keeps the tree of its project, if that exists, at each
-- version that is at most `keep` versions before the latest one, and the trees of all other projects.
pub tree_at-gc_project_objects :
    (p keep from_version q w : ℤ) (path : Bytes) (t : Tables)
    → ((q ≡ p)
        × ((row : ProjectRow) × (find (is_project p) t.projects ≡ some row)
            × (row.latest_version ≤ℤ w +ℤ keep)))
      ⊎ (q ≢ p)
    → tree_at (after_gc p keep from_version t).committed.objects q w path
      ≡ tree_at t.objects q w path
tree_at-gc_project_objects p keep from_version q w path t (inl (e, (row, f, le))) =
    subst
      (λ x.
        tree_at (after_gc p keep from_version t).committed.objects x w path
        ≡ tree_at t.objects x w path)
      (sym e) (tree_at-gc_kept_version p keep from_version w path t row f le)
tree_at-gc_project_objects p keep from_version q w path t (inr ne) =
    tree_at-gc_other_project p keep from_version q w path t ne

module _ (objects : List ObjectRow) (c : ContentRow) where
  -- What is named by an object is never missing.
  pub named_kept :
      (hashes : List Hash)
      → any (λ o. bytes_eq o.hash c.hash) objects ≡ true
      → is_missing hashes objects c ≡ false
  unfolding is_missing
  named_kept hashes h = ground arith

  missing-append :
      (xs ys : List Hash)
      → is_missing (xs ++ ys) objects c ≡ (is_missing xs objects c || is_missing ys objects c)
  unfolding is_missing any
  missing-append [] ys = ground arith
  missing-append (x ∷ xs) ys = ground (arith, missing-append xs ys)

abbrev pub SameBut : Session → List Hash → Session → Type 0
SameBut s hashes s' =
    (s'.committed.objects ≡ s.committed.objects)
    × (s'.faults ≡ [])
    × ((c : ContentRow)
        → In c s'.committed.contents
          ↔ (In c s.committed.contents × (is_missing hashes s.committed.objects c ≡ false)))

missing_none : (objects : List ObjectRow) (c : ContentRow) → is_missing [] objects c ≡ false
unfolding is_missing any
missing_none objects c = refl

-- One slice, then the others.
missing_step :
    (objects : List ObjectRow) (contents after : List ContentRow) (xs ys : List Hash)
    (c : ContentRow)
    → (In c after ↔ (
        In c (filter (λ d. not (is_missing xs objects d)) contents)
        × (is_missing ys objects c ≡ false)))
    → In c after ↔ (In c contents × (is_missing (xs ++ ys) objects c ≡ false))
missing_step objects contents after xs ys c step =
    let kept = In-filter (λ d. not (is_missing xs objects d)) c contents in
    let both = missing-append objects c xs ys in
    (
      λ m. let (a, b) = step.0 m in let (m', k) = kept.0 a in (m', ground arith),
      λ h. step.1 (kept.1 (h.0, ground arith), ground arith),
    )

-- The contents after the loop over the slices.
gc_chunks-calm :
    (chunks : List (List Hash)) (n : ℤ) (v c : Tables)
    → SameBut (calm v c) (concat chunks) (gc_chunks chunks n (calm v c)).1
unfolding gc_chunks ◌>>=◌ delete_missing
gc_chunks-calm [] n v c = (refl, refl, λ x. (λ m. (m, missing_none c.objects x), λ m. m.0))
gc_chunks-calm (hashes ∷ chunks) n v c =
    let v' : Tables = record v {
      contents = filter (λ x. not (is_missing hashes v.objects x)) v.contents;
    } in
    let c' : Tables = record c {
      contents = filter (λ x. not (is_missing hashes c.objects x)) c.contents;
    } in
    let n' = n +ℤ pos (length (filter (is_missing hashes c.objects) c.contents)) in
    let ih = gc_chunks-calm chunks n' v' c' in
    (ih.0, ih.1, λ x. missing_step c.objects c.contents _ hashes (concat chunks) x (ih.2 x))

gc_content_hashes-cons :
    (h : Hash) (hashes : List Hash)
    → gc_content_hashes (h ∷ hashes) ≡ gc_chunks (chunk (h ∷ hashes) 500) (pos 0)
unfolding gc_content_hashes
gc_content_hashes-cons h hashes =
    let nonempty : (length (h ∷ hashes) == 0) ≡ false = ground arith in rw nonempty refl

-- If no statement fails, GcContentHashes deletes exactly the contents that are among the given
-- hashes and that no object names, and it changes no object.
pub gc_content_hashes_lem :
    (hashes : List Hash) (v c : Tables)
    → SameBut (calm v c) hashes (gc_content_hashes hashes (calm v c)).1
unfolding gc_content_hashes ◌>>=◌
gc_content_hashes_lem [] v c = (refl, refl, λ x. (λ m. (m, missing_none c.objects x), λ m. m.0))
gc_content_hashes_lem (h ∷ hashes) v c =
    let all = (chunk_lem (h ∷ hashes) 500 (omega arith)).0 in
    rw (gc_content_hashes-cons h hashes)
      (rw all at (gc_chunks-calm (chunk (h ∷ hashes) 500) (pos 0) v c))
