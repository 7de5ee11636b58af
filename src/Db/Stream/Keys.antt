-- ===== src/Db/Stream/Keys.antt =====
-- The hashes that loadChunk looks up are those of the uncached objects of its chunk.
use dateilager.Prelude.{
  ◌≡◌, refl, ap, sym, ◌∙◌, ◌⊎◌, Bool, true, false, not, some, List, [], ◌∷◌, bytes_eq, bytes_eq_iff,
  Bool-cases, inl, inr, In, if◌then◌else◌, is_some,
}
use dateilager.Db.Schema.{Hash}
use dateilager.Db.Query.{DbObject}
use dateilager.Db.Content.{HashMap, put_hash, get_hash}
use dateilager.Db.Content.Maps.{Unique, Unique-put, get_hash-put_same, get_hash-put_other}
use dateilager.Db.Stream.{wanted_hashes}

-- A key of loadChunk is the hash of an object of the chunk, with its flag.
pub wanted_hashes-get :
    (wanted : HashMap Bool) (objects : List DbObject) (hash : Hash) (b : Bool)
    → get_hash hash (wanted_hashes wanted objects) ≡ some b
    → (get_hash hash wanted ≡ some b)
      ⊎ ((o : DbObject) × In o objects × (o.cached ≡ false) × (o.hash ≡ hash) × (not o.packed ≡ b))
unfolding wanted_hashes
wanted_hashes-get wanted [] hash b g = inl g
wanted_hashes-get wanted (o ∷ os) hash b g =
    elim (wanted_hashes-get (if o.cached then wanted else put_hash o.hash (not o.packed) wanted) os
      hash b g) [
        | inr (q, i, c, h, p) ↦ inr (q, inr i, c, h, p)
        | inl k ↦ elim (Bool-cases o.cached) [
          | inl e ↦ inl (rw e at k)
          | inr e ↦
              let k' : get_hash hash (put_hash o.hash (not o.packed) wanted) ≡ some b = rw e at k in
              elim (Bool-cases (bytes_eq o.hash hash)) [
                | inl s ↦
                    let same = (bytes_eq_iff o.hash hash).0 s in
                    inr (
                      o,
                      inl refl,
                      e,
                      same,
                      cc (same, get_hash-put_same o.hash (not o.packed) wanted, k'),
                    )
                | inr n ↦ inl (sym (get_hash-put_other o.hash hash (not o.packed) wanted n) ∙ k')
              ]
        ]
      ]

pub wanted_hashes-Unique :
    (wanted : HashMap Bool) (objects : List DbObject)
    → Unique wanted
    → Unique (wanted_hashes wanted objects)
unfolding wanted_hashes
wanted_hashes-Unique wanted [] u = u
wanted_hashes-Unique wanted (o ∷ os) u = elim (Bool-cases o.cached) [
  | inl e ↦ rw (e, wanted_hashes) (wanted_hashes-Unique wanted os u)
  | inr e ↦
      rw (e, wanted_hashes)
        (wanted_hashes-Unique (put_hash o.hash (not o.packed) wanted) os
          (Unique-put o.hash (not o.packed) wanted u))
]

put-some :
    (k h : Hash) (b : Bool) (wanted : HashMap Bool)
    → is_some (get_hash h wanted) ≡ true
    → is_some (get_hash h (put_hash k b wanted)) ≡ true
put-some k h b wanted s = elim (Bool-cases (bytes_eq k h)) [
  | inl e ↦
      let same = (bytes_eq_iff k h).0 e in
      cc (
        ap (λ x. is_some (get_hash x (put_hash k b wanted))) same,
        ap is_some (get_hash-put_same k b wanted),
      )
  | inr e ↦ ap is_some (get_hash-put_other k h b wanted e) ∙ s
]

wanted_hashes-some :
    (wanted : HashMap Bool) (objects : List DbObject) (hash : Hash)
    → is_some (get_hash hash wanted) ≡ true
    → is_some (get_hash hash (wanted_hashes wanted objects)) ≡ true
unfolding wanted_hashes
wanted_hashes-some wanted [] hash s = s
wanted_hashes-some wanted (o ∷ os) hash s = elim (Bool-cases o.cached) [
  | inl e ↦ rw (e, wanted_hashes) (wanted_hashes-some wanted os hash s)
  | inr e ↦
      rw (e, wanted_hashes)
        (wanted_hashes-some (put_hash o.hash (not o.packed) wanted) os hash
          (put-some o.hash hash (not o.packed) wanted s))
]

pub wanted_hashes-In :
    (wanted : HashMap Bool) (objects : List DbObject) (o : DbObject)
    → In o objects
    → o.cached ≡ false
    → is_some (get_hash o.hash (wanted_hashes wanted objects)) ≡ true
unfolding wanted_hashes
wanted_hashes-In wanted [] o i c = absurd i
wanted_hashes-In wanted (x ∷ os) o (inr i) c =
    wanted_hashes-In (if x.cached then wanted else put_hash x.hash (not x.packed) wanted) os o i c
wanted_hashes-In wanted (x ∷ os) o (inl e) c =
    let uncached : x.cached ≡ false = cc (e, c) in
    rw (e, uncached)
      (wanted_hashes-some (put_hash x.hash (not x.packed) wanted) os x.hash
        (ap is_some (get_hash-put_same x.hash (not x.packed) wanted)))
