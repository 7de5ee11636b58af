-- ===== src/Db/Tar/Merge/Walked.antt =====
-- internal/db/tar.go, updateObjects and packObjects: the stream ends within its fuel, and it yields the
-- merged objects in their order.
use mathlib.Core.List.{append_assoc}
use dateilager.Prelude.{
  ℕ, zero, suc, ◌+◌, ◌<◌, ◌≡◌, refl, sym, ◌∙◌, ap, inl, inr, Bool, true, false, Option, some, List,
  [], ◌∷◌, ◌++◌, arith, Bytes, all, length, length-append, take, drop, Option-cases, if◌then◌else◌,
  take-append-drop,
}
use dateilager.Result.{Result, ok, err, ◌>>=◌}
use dateilager.Codec.{TarEntry, Codec}
use dateilager.Db.Update.{Object}
use dateilager.Db.Tar.{
  TarWriter, write_object, uncached_tar_object, find_update, has_seen, object_from_tar_header, Next,
  object, skip, end_of_stream, failed, Walk, next_object, next_entry, next_update, pack_loop,
}
use dateilager.Db.Tar.Merge.{unless_deleted, replaced, seen_after, added, emit, emit-append}
use dateilager.Db.Tar.Merge.Seen.{
  unseen, added_seen, all-append, all-take, seen_more-all, first_unseen-cases, added_found,
  unseen_found, unseen-more,
}

abbrev walk : List Object → List Bytes → ℕ → List TarEntry → Bool → Walk
walk updates seen hint entries remaining = record {
  updates = updates;
  seen_paths = seen;
  idx_hint = hint;
  entries = entries;
  remaining = remaining;
}

-- The loop after the objects of a turn were written, or one was not.
abbrev carry : Codec → ℕ → Walk → Result (Bool × TarWriter) → Option (Result (Bool × TarWriter))
carry codec fuel s (ok (is_empty, w)) = pack_loop codec fuel next_object s is_empty w
carry codec fuel s (err e) = some (err e)

carried :
    (codec : Codec) (fuel : ℕ) (s : Walk) (rest : List Object) (r : Result (Bool × TarWriter))
    → ((is_empty : Bool) (w : TarWriter)
        → pack_loop codec fuel next_object s is_empty w ≡ some (emit codec rest is_empty w))
    → carry codec fuel s r ≡ some (r >>= λ x. emit codec rest x.0 x.1)
carried codec fuel s rest (ok (is_empty, w)) h = h is_empty w
carried codec fuel s rest (err e) h = refl

-- One turn of the loop, for what the stream returned.
abbrev turn : Codec → ℕ → Next × Walk → Bool → TarWriter → Option (Result (Bool × TarWriter))
turn codec fuel r is_empty w = elim r.0 [
  | skip ↦ pack_loop codec fuel next_object r.1 is_empty w
  | end_of_stream ↦ some (ok (is_empty, w))
  | failed e ↦ some (err e)
  | object o ↦ elim (write_object codec (uncached_tar_object o) w) [
    | ok w' ↦ pack_loop codec fuel next_object r.1 false w'
    | err e ↦ some (err e)
  ]
]

pack_turn :
    (codec : Codec) (fuel : ℕ) (s : Walk) (r : Next × Walk) (is_empty : Bool) (w : TarWriter)
    → next_object s ≡ r
    → pack_loop codec (suc fuel) next_object s is_empty w ≡ turn codec fuel r is_empty w
unfolding pack_loop
pack_turn codec fuel s r is_empty w h = ap (λ x. turn codec fuel x is_empty w) h

written_one :
    (codec : Codec) (fuel : ℕ) (s : Walk) (r : Result TarWriter)
    → elim r [ ok w' ↦ pack_loop codec fuel next_object s false w' | err e ↦ some (err e) ]
      ≡ carry codec fuel s (r >>= λ w'. ok (false, w'))
written_one codec fuel s (ok w') = refl
written_one codec fuel s (err e) = refl

turn_object :
    (codec : Codec) (fuel : ℕ) (s : Walk) (o : Object) (is_empty : Bool) (w : TarWriter)
    → turn codec fuel (object o, s) is_empty w ≡ carry codec fuel s (emit codec (o ∷ []) is_empty w)
unfolding emit
turn_object codec fuel s o is_empty w =
    written_one codec fuel s (write_object codec (uncached_tar_object o) w)

yielded :
    (codec : Codec) (fuel : ℕ) (s : Walk) (o : Object) (is_empty : Bool) (w : TarWriter)
    (is_deleted : Bool)
    → turn codec fuel ((if is_deleted then skip else object o), s) is_empty w
      ≡ carry codec fuel s (emit codec (if is_deleted then [] else o ∷ []) is_empty w)
unfolding emit
yielded codec fuel s o is_empty w true = refl
yielded codec fuel s o is_empty w false = turn_object codec fuel s o is_empty w

turn_yield :
    (codec : Codec) (fuel : ℕ) (s : Walk) (o : Object) (is_empty : Bool) (w : TarWriter)
    → turn codec fuel ((if o.deleted then skip else object o), s) is_empty w
      ≡ carry codec fuel s (emit codec (unless_deleted o) is_empty w)
turn_yield codec fuel s o is_empty w = yielded codec fuel s o is_empty w o.deleted

module _ (codec : Codec) (updates : List Object) where
  -- The stream after the reader's end.
  walked_updates :
      (fuel : ℕ) (seen : List Bytes) (hint : ℕ) (is_empty : Bool) (w : TarWriter)
      → all (has_seen seen) (take hint updates) ≡ true
      → unseen seen updates < fuel
      → pack_loop codec fuel next_object (walk updates seen hint [] false) is_empty w
        ≡ some (emit codec (added seen updates) is_empty w)
  unfolding next_object next_update emit
  walked_updates zero seen hint is_empty w h lt = let no : ⊥ = omega arith in absurd no
  walked_updates (suc fuel) seen hint is_empty w h lt =
      elim (first_unseen-cases seen 0 (drop hint updates)) [
        | inl (e, a) ↦
            let whole = take-append-drop hint updates in
            let nothing : added seen updates ≡ [] =
              added_seen seen updates
                (rw whole at (all-append seen (take hint updates) (drop hint updates) h a)) in
            pack_turn codec fuel (walk updates seen hint [] false)
              (end_of_stream, walk updates seen hint [] false) is_empty w (rw e refl)
            ∙ rw nothing refl
        | inr (idx, o, e, f) ↦
            let prefix = take hint updates ++ f.before in
            let seen_prefix = all-append seen (take hint updates) f.before h f.seen_before in
            let whole : updates ≡ prefix ++ o ∷ f.after =
              sym (take-append-drop hint updates)
              ∙ ap (λ xs. take hint updates ++ xs) f.split_at
              ∙ sym (append_assoc (take hint updates) f.before (o ∷ f.after)) in
            let longer = length-append (take hint updates) f.before in
            let less : unseen (o.path ∷ seen) updates < unseen seen updates =
              rw whole (unseen_found seen prefix f.after o seen_prefix f.new) in
            let more : added seen updates ≡ unless_deleted o ++ added (o.path ∷ seen) updates =
              rw whole (added_found seen prefix f.after o seen_prefix f.new) in
            let next = walk updates (o.path ∷ seen) idx [] false in
            pack_turn codec fuel (walk updates seen hint [] false)
              ((if o.deleted then skip else object o), next) is_empty w (rw e refl)
            ∙ turn_yield codec fuel next o is_empty w
            ∙ carried codec fuel next (added (o.path ∷ seen) updates)
                (emit codec (unless_deleted o) is_empty w)
                (λ is_empty' w'.
                  walked_updates fuel (o.path ∷ seen) idx is_empty' w'
                    (rw whole (
                      all-take (o.path ∷ seen) idx prefix (o ∷ f.after)
                        (omega (arith, f.index, longer))
                        (seen_more-all o.path seen prefix seen_prefix)))
                    (omega (arith, less)))
            ∙ sym (
                ap some (
                  ap (λ xs. emit codec xs is_empty w) more
                  ∙ emit-append codec (unless_deleted o) (added (o.path ∷ seen) updates) is_empty
                      w))
      ]

  -- The stream from the start.
  pub walked_entries :
      (entries : List TarEntry) (fuel : ℕ) (seen : List Bytes) (is_empty : Bool) (w : TarWriter)
      → length entries + unseen seen updates + 1 < fuel
      → pack_loop codec fuel next_object (walk updates seen 0 entries true) is_empty w
        ≡ some (
            emit codec
              (replaced updates entries ++ added (seen_after entries seen) updates)
              is_empty
              w)
  unfolding next_object next_entry replaced seen_after emit all
  walked_entries entries zero seen is_empty w lt = let no : ⊥ = omega arith in absurd no
  walked_entries [] (suc fuel) seen is_empty w lt =
      pack_turn codec fuel (walk updates seen 0 [] true) (skip, walk updates seen 0 [] false)
        is_empty w refl
      ∙ walked_updates fuel seen 0 is_empty w refl (omega arith)
  walked_entries (e ∷ es) (suc fuel) seen is_empty w lt =
      let next = walk updates (e.name ∷ seen) 0 es true in
      let rest = replaced updates es ++ added (seen_after es (e.name ∷ seen)) updates in
      let fuel_left : length es + unseen (e.name ∷ seen) updates + 1 < fuel =
        omega (arith, unseen-more e.name seen updates) in
      elim (Option-cases (find_update updates e.name)) [
        | inl n ↦
            let new = object_from_tar_header e in
            pack_turn codec fuel (walk updates seen 0 (e ∷ es) true) (object new, next) is_empty w
              (rw n refl)
            ∙ turn_object codec fuel next new is_empty w
            ∙ carried codec fuel next rest (emit codec (new ∷ []) is_empty w)
                (λ is_empty' w'. walked_entries es fuel (e.name ∷ seen) is_empty' w' fuel_left)
            ∙ rw n (ap some (sym (emit-append codec (new ∷ []) rest is_empty w)))
        | inr (u, f) ↦
            pack_turn codec fuel (walk updates seen 0 (e ∷ es) true)
              ((if u.deleted then skip else object u), next) is_empty w (rw f refl)
            ∙ turn_yield codec fuel next u is_empty w
            ∙ carried codec fuel next rest (emit codec (unless_deleted u) is_empty w)
                (λ is_empty' w'. walked_entries es fuel (e.name ∷ seen) is_empty' w' fuel_left)
            ∙ rw f (
                ap some (
                  sym (emit-append codec (unless_deleted u) rest is_empty w)
                  ∙ ap (λ xs. emit codec xs is_empty w)
                      (sym (
                        append_assoc (unless_deleted u) (replaced updates es)
                          (added (seen_after es (e.name ∷ seen)) updates)))))
      ]
