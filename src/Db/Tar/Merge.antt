-- ===== src/Db/Tar/Merge.antt =====
-- internal/db/tar.go, updateObjects: what a pack holds after updates, as a specification that keeps
-- neither a hint nor a reader.
pub mod Seen
pub mod Walked
pub mod Packed
use dateilager.Prelude.{
  ℕ, zero, suc, ◌+◌, ◌≡◌, refl, ◌∙◌, ap, Bool, true, false, not, ◌&&◌, ◌||◌, Option, none, some,
  List, [], ◌∷◌, ◌++◌, Bytes, bytes_eq, any, all, if◌then◌else◌, map,
}
use dateilager.Result.{Result, ok, err, empty_pack, ◌>>=◌}
use dateilager.Codec.{TarEntry, Codec}
use dateilager.Db.Update.{Object}
use dateilager.Db.Tar.{
  TarWriter, write_object, uncached_tar_object, find_update, has_seen, object_from_tar_header,
}

-- A deleted object is left out.
abbrev pub unless_deleted : Object → List Object
unless_deleted o = if o.deleted then [] else o ∷ []

abbrev pub replacement : Option Object → TarEntry → List Object
replacement none e = object_from_tar_header e ∷ []
replacement (some update) e = unless_deleted update

-- The entries of the old pack, each replaced by its update if there is one.
unfoldable pub replaced : List Object → List TarEntry → List Object
replaced updates [] = []
replaced updates (e ∷ es) = replacement (find_update updates e.name) e ++ replaced updates es

unfoldable pub seen_after : List TarEntry → List Bytes → List Bytes
seen_after [] seen = seen
seen_after (e ∷ es) seen = seen_after es (e.name ∷ seen)

-- The updates of paths that were not seen, the first one of each path.
unfoldable pub added : List Bytes → List Object → List Object
added seen [] = []
added seen (o ∷ os) =
    let rest = added seen os in
    let rest' = added (o.path ∷ seen) os in
    if has_seen seen o then rest else unless_deleted o ++ rest'

-- The objects of a pack with these entries after these updates.
unfoldable pub merged : List TarEntry → List Object → List Object
unfolding replaced seen_after added
merged entries updates = replaced updates entries ++ added (seen_after entries []) updates

-- What packObjects has written after these objects, and whether that is nothing.
unfoldable pub emit : Codec → List Object → Bool → TarWriter → Result (Bool × TarWriter)
unfolding write_object
emit codec [] is_empty w = ok (is_empty, w)
emit codec (o ∷ os) is_empty w =
    write_object codec (uncached_tar_object o) w >>= λ w'. emit codec os false w'

bound :
    {A B C : Type 0} (r : Result A) (f : A → Result B) (g : A → Result C) (k : B → Result C)
    → ((a : A) → g a ≡ (f a >>= k))
    → (r >>= g) ≡ ((r >>= f) >>= k)
bound (ok a) f g k h = h a
bound (err e) f g k h = refl

pub emit-append :
    (codec : Codec) (xs ys : List Object) (is_empty : Bool) (w : TarWriter)
    → emit codec (xs ++ ys) is_empty w ≡ (emit codec xs is_empty w >>= λ x. emit codec ys x.0 x.1)
unfolding emit
emit-append codec [] ys is_empty w = refl
emit-append codec (x ∷ xs) ys is_empty w =
    bound (write_object codec (uncached_tar_object x) w) (λ w'. emit codec xs false w')
      (λ w'. emit codec (xs ++ ys) false w') (λ x. emit codec ys x.0 x.1)
      (λ w'. emit-append codec xs ys false w')
