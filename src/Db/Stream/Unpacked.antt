-- ===== src/Db/Stream/Unpacked.antt =====
-- The objects of rows, with the packs opened, and the calls that return them.
use dateilager.Prelude.{
  ℕ, suc, ◌+◌, ◌≡◌, refl, ap, sym, ◌∙◌, Bool, true, false, ◌&&◌, ◌||◌, Bool-cases, inl, inr, List,
  [], ◌∷◌, ◌++◌, Bytes, bytes_eq, has_prefix, arith, length, drop, filter, All, if◌then◌else◌,
  append_assoc,
}
use dateilager.Result.{Result, ok, err, panic, cached_object}
use dateilager.Codec.{Codec, IsLawful}
use dateilager.Db.Schema.{Tables}
use dateilager.Db.Session.{Session, calm}
use dateilager.Db.Query.{DbObject, ObjectQuery}
use dateilager.Db.Update.{Object}
use dateilager.Db.Tar.{Next, failed}
use dateilager.Db.Content.{MemoryCache, IsCache}
use dateilager.Db.Content.Sound.{IsKeyed, IsSound}
use dateilager.Db.Stream.{Cursor, row, next_row, filter_object, unpack_objects}
use dateilager.Db.Stream.Chunks.{IsLoadable}
use dateilager.Db.Stream.Rows.{IsAhead, next_row_lem, next_row-end}
use dateilager.Db.Stream.Tars.{Sent}
use dateilager.Db.Stream.Objects.{
  object_of_row, first_of, read_row, next_object, after_next, send_objects,
}

-- The objects that filterObject lets through.
abbrev pub is_match : Bytes → ObjectQuery → Object → Bool
is_match path query o = query.is_prefix && has_prefix o.path path || bytes_eq o.path path

abbrev pub objects_in : Result (List Object) → List Object
objects_in (ok os) = os
objects_in (err e) = []

-- A row's objects: those of a pack, or the row itself.
unfoldable pub unpacked : Codec → (DbObject → Bytes) → DbObject → List Object
unpacked codec content o =
    if o.packed
    then objects_in (unpack_objects codec (content o))
    else object_of_row o (content o) ∷ []

unfoldable pub flat : Codec → (DbObject → Bytes) → List DbObject → List Object
flat codec content [] = []
flat codec content (o ∷ os) = unpacked codec content o ++ flat codec content os

-- A row that no cache stands for, and whose pack, if it is one, opens and is not empty.
abbrev pub IsReadable : Codec → (DbObject → Bytes) → DbObject → Type 0
IsReadable codec content o =
    (o.cached ≡ false)
    × (o.packed ≡ true
        → (x : Object) × (xs : List Object) × (unpack_objects codec (content o) ≡ ok (x ∷ xs)))

-- A call for each object, and the calls after them.
abbrev pub calls : List Object → ℕ → ℕ
calls [] fuel = fuel
calls (o ∷ os) fuel = suc (calls os fuel)

pub calls-length : (os : List Object) (fuel : ℕ) → calls os fuel ≡ length os + fuel
calls-length [] fuel = omega arith
calls-length (o ∷ os) fuel = omega (arith, calls-length os fuel)

calls-append : (xs ys : List Object) (fuel : ℕ) → calls (xs ++ ys) fuel ≡ calls xs (calls ys fuel)
calls-append [] ys fuel = refl
calls-append (x ∷ xs) ys fuel = ap suc (calls-append xs ys fuel)

filter-append :
    (p : Object → Bool) (xs ys : List Object) → filter p (xs ++ ys) ≡ filter p xs ++ filter p ys
unfolding filter
filter-append p [] ys = refl
filter-append p (x ∷ xs) ys = elim (Bool-cases (p x)) [
  | inl e ↦ rw (e, filter) (ap (λ zs. x ∷ zs) (filter-append p xs ys))
  | inr e ↦ rw (e, filter) (filter-append p xs ys)
]

abbrev pub before : {S : Type 0} → List Object → Sent S Object × Session → Sent S Object × Session
before os (r, t) = (record r { sent = os ++ r.sent }, t)

module _ {S : Type 0} (codec : Codec) (cache : MemoryCache S) (path : Bytes)
    (query : ObjectQuery) where
  -- One object through the filter.
  after-filter :
      (o : Object) (s : S) (t : Session) (rest : Sent S Object × Session)
      → after_next (filter_object path query o) s t rest
        ≡ before (if is_match path query o then o ∷ [] else []) rest
  unfolding filter_object
  after-filter o s t rest = elim (Bool-cases (query.is_prefix && has_prefix o.path path)) [
    | inl e ↦ rw (e, filter_object) refl
    | inr e ↦ elim (Bool-cases (bytes_eq o.path path)) [
      | inl k ↦ rw (e, k, filter_object) refl
      | inr k ↦ rw (e, k, filter_object) refl
    ]
  ]

  filter-cons :
      (o : Object) (os : List Object) (rest : Sent S Object × Session)
      → before
          (if is_match path query o then o ∷ [] else [])
          (before (filter (is_match path query) os) rest)
        ≡ before (filter (is_match path query) (o ∷ os)) rest
  unfolding filter
  filter-cons o os rest = elim (Bool-cases (is_match path query o)) [
    | inl e ↦ rw (e, filter) refl
    | inr e ↦ rw (e, filter) refl
  ]

  send-buffer :
      (buffer : List Object) (fuel : ℕ) (objects : List DbObject) (c : Cursor S) (t : Session)
      → send_objects codec cache path query (calls buffer fuel) objects c buffer t
        ≡ before
            (filter (is_match path query) buffer)
            (send_objects codec cache path query fuel objects c [] t)
  unfolding send_objects next_object filter
  send-buffer [] fuel objects c t = refl
  send-buffer (o ∷ buffer) fuel objects c t =
      after-filter o c.state t
        (send_objects codec cache path query (calls buffer fuel) objects c buffer t)
      ∙ ap (before (if is_match path query o then o ∷ [] else []))
          (send-buffer buffer fuel objects c t)
      ∙ filter-cons o buffer (send_objects codec cache path query fuel objects c [] t)

  -- The objects of a row, and then those of the next rows.
  send-row :
      (xs : List Object) (x : Object) (fuel : ℕ) (objects : List DbObject) (c c' : Cursor S)
      (t : Session) (o : DbObject) (bytes : Bytes)
      → next_row codec cache objects c t ≡ ((row o bytes, c'), t)
      → read_row codec cache path query (row o bytes) ≡ (filter_object path query x, xs)
      → send_objects codec cache path query (calls (x ∷ xs) fuel) objects c [] t
        ≡ before
            (filter (is_match path query) (x ∷ xs))
            (send_objects codec cache path query fuel objects c' [] t)
  unfolding send_objects next_object
  send-row xs x fuel objects c c' t o bytes e r =
      let tail = send_objects codec cache path query fuel objects c' [] t in
      rw (e, r, send_objects, next_object)
        (after-filter x c'.state t
            (send_objects codec cache path query (calls xs fuel) objects c' xs t)
          ∙ ap (before (if is_match path query x then x ∷ [] else []))
              (send-buffer xs fuel objects c' t)
          ∙ filter-cons x xs tail)

  pub send-end :
      (fuel : ℕ) (objects : List DbObject) (c : Cursor S) (t : Session)
      → drop c.idx objects ≡ []
      → send_objects codec cache path query (suc fuel) objects c [] t
        ≡ (record { sent = []; state = c.state; outcome = ok tt }, t)
  unfolding send_objects next_object read_row
  send-end fuel objects c t d =
      rw (next_row-end codec cache objects c t d, send_objects, next_object, read_row) refl

  read_row-empty :
      (o : DbObject) (bytes : Bytes)
      → IsLawful codec
      → o.cached ≡ false
      → o.packed ≡ true
      → bytes ≡ []
      → read_row codec cache path query (row o bytes) ≡ (failed panic, [])
  unfolding read_row unpack_objects
  read_row-empty o bytes lawful u p z =
      let none_in : unpack_objects codec bytes ≡ ok [] =
        ap (unpack_objects codec) z ∙ rw (lawful.read_tar-nil, unpack_objects) refl in
      rw (u, p, none_in, read_row) refl

  pub send-panic :
      (fuel : ℕ) (objects : List DbObject) (c c' : Cursor S) (t : Session) (o : DbObject)
      (bytes : Bytes)
      → IsLawful codec
      → next_row codec cache objects c t ≡ ((row o bytes, c'), t)
      → o.cached ≡ false
      → o.packed ≡ true
      → bytes ≡ []
      → send_objects codec cache path query (suc fuel) objects c [] t
        ≡ (record { sent = []; state = c'.state; outcome = err panic }, t)
  unfolding send_objects next_object
  send-panic fuel objects c c' t o bytes lawful e u p z =
      rw (e, read_row-empty o bytes lawful u p z, send_objects, next_object) refl

  before-append :
      (xs ys : List Object) (rest : Sent S Object × Session)
      → before (filter (is_match path query) xs) (before (filter (is_match path query) ys) rest)
        ≡ before (filter (is_match path query) (xs ++ ys)) rest
  before-append xs ys rest =
      ap (λ os. (record rest.0 { sent = os }, rest.1))
        (sym (
            append_assoc (filter (is_match path query) xs) (filter (is_match path query) ys)
              rest.0.sent)
          ∙ ap (λ os. os ++ rest.0.sent) (sym (filter-append (is_match path query) xs ys)))

  -- What the stream does with a row that can be read.
  read_row-first :
      (content : DbObject → Bytes) (o : DbObject)
      → IsReadable codec content o
      → (x : Object) × (xs : List Object) × (unpacked codec content o ≡ x ∷ xs)
        × (read_row codec cache path query (row o (content o)) ≡ (filter_object path query x, xs))
  unfolding unpacked read_row
  read_row-first content o (c, p) =
      let plain : Next × List Object =
        (filter_object path query (object_of_row o (content o)), []) in
      let opened = first_of path query (unpack_objects codec (content o)) in
      let uncached =
        ap (λ b. if b then (failed cached_object, []) else if o.packed then opened else plain) c in
      elim (Bool-cases o.packed) [
        | inl e ↦
            let (x, xs, u) = p e in
            (
              x,
              xs,
              ap
                    (λ b.
                      if b
                      then objects_in (unpack_objects codec (content o))
                      else object_of_row o (content o) ∷ [])
                    e
                  ∙ ap objects_in u,
              uncached ∙ ap (λ b. if b then opened else plain) e ∙ ap (first_of path query) u,
            )
        | inr e ↦ (
          object_of_row o (content o),
          [],
          ap
              (λ b.
                if b
                then objects_in (unpack_objects codec (content o))
                else object_of_row o (content o) ∷ [])
              e,
          uncached ∙ ap (λ b. if b then opened else plain) e,
        )
      ]

  -- The rows at the front, with what follows them left to do.
  pub send-front :
      (v t : Tables) (objects : List DbObject) (content : DbObject → Bytes)
      → IsCache cache
      → IsKeyed v.contents
      → IsLoadable codec v.contents objects content
      → (front back : List DbObject) (fuel : ℕ) (c : Cursor S)
      → All (IsReadable codec content) front
      → IsSound codec cache v.contents c.state
      → drop c.idx objects ≡ front ++ back
      → IsAhead codec cache content (front ++ back) c
      → (c' : Cursor S) × (send_objects codec cache path query
            (calls (flat codec content front) fuel)
            objects
            c
            []
            (calm v t)
          ≡ before
              (filter (is_match path query) (flat codec content front))
              (send_objects codec cache path query fuel objects c' [] (calm v t)))
        × (drop c'.idx objects ≡ back)
        × IsAhead codec cache content back c'
        × IsSound codec cache v.contents c'.state
  unfolding flat filter
  send-front v t objects content law keyed l [] back fuel c h sound d a = (c, refl, d, a, sound)
  send-front v t objects content law keyed l (o ∷ front) back fuel c h sound d a =
      let (c1, e, d1, a1, sound1) =
        next_row_lem codec cache v t objects content c o (front ++ back) law keyed l sound d a in
      let (c', r, d', a', sound') =
        send-front v t objects content law keyed l front back fuel c1 h.1 sound1 d1 a1 in
      let (x, xs, u, f) = read_row-first content o h.0 in
      let later = calls (flat codec content front) fuel in
      let step = send-row xs x later objects c c1 (calm v t) o (content o) e f in
      let count : calls (unpacked codec content o ++ flat codec content front) fuel
          ≡ calls (x ∷ xs) later =
        calls-append (unpacked codec content o) (flat codec content front) fuel
        ∙ ap (λ os. calls os later) u in
      let rest = send_objects codec cache path query fuel objects c' [] (calm v t) in
      (
        c',
        ap (λ n. send_objects codec cache path query n objects c [] (calm v t)) count
            ∙ step
            ∙ ap (before (filter (is_match path query) (x ∷ xs))) r
            ∙ before-append (x ∷ xs) (flat codec content front) rest
            ∙ ap (λ os. before (filter (is_match path query) (os ++ flat codec content front)) rest)
                (sym u),
        d',
        a',
        sound',
      )
