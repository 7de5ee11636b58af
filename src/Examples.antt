-- ===== src/Examples.antt =====
-- Concrete tables, streams and requests, at which the theorems with hypotheses apply.
pub mod Trees
pub mod Endpoints
pub mod Packs
pub mod Denials
pub mod Archives
pub mod Streams
pub mod Clients
pub mod Disks
pub mod Rebuilds
pub mod Served
pub mod Reads
pub mod Uploads
use dateilager.Prelude.{
  ◌≡◌, refl, Bool, true, false, Option, none, some, List, [], ◌∷◌, ℤ, pos, negsuc, Bytes, codes, ℕ,
  suc, ltb, map, if◌then◌else◌, bytes_eq, any, arith, eqb_ℤ, ◌≤ℤ◌, In, inl, inr, ◌⊎◌,
}
use dateilager.Result.{ok}
use dateilager.Codec.{Codec, TarEntry}
use dateilager.Db.Schema.{ProjectRow, ObjectRow, Tables, is_unique, clash}
use dateilager.Db.History.{OneLive, is_visible}
use dateilager.Db.History.Stops.{WellFormed, IsOrdered}
use dateilager.Db.Update.{Object}
use dateilager.Db.Update.Placed.{Fresh}
use dateilager.Db.Update.Trees.{IsReady}

-- Whether a text comes before another one or equals it, byte by byte.
abbrev comes_first : Bytes → Bytes → Bool
comes_first [] ys = true
comes_first (x ∷ xs) [] = false
comes_first (x ∷ xs) (y ∷ ys) =
    let rest = comes_first xs ys in if ltb x y then true else if ltb y x then false else rest

abbrev placed : Bytes → ℕ → List (Bytes × ℕ) → List (Bytes × ℕ)
placed key i [] = (key, i) ∷ []
placed key i ((k, j) ∷ rest) =
    let later = placed key i rest in
    if comes_first key k then (key, i) ∷ (k, j) ∷ rest else (k, j) ∷ later

abbrev ordered : ℕ → List Bytes → List (Bytes × ℕ)
ordered i [] = []
ordered i (key ∷ keys) = placed key i (ordered (suc i) keys)

-- The places of the texts in their order.
abbrev pub places_in_order : List Bytes → List ℕ
places_in_order keys = map (λ (p : Bytes × ℕ). p.1) (ordered 0 keys)

-- Contents that are their own hashes and encodings.
abbrev pub plain_codec : Codec
plain_codec = record {
  hash_content = λ content. content;
  encode = λ content. content;
  decode = λ content. ok content;
  write_tar = λ entries. [];
  read_tar = λ bytes. ok [];
  takes = λ entry. true;
  sort_order = places_in_order;
  is_pattern = λ pattern. true;
  matches = λ pattern text. bytes_eq pattern text;
}

-- Project 1 at version 2: the file a was replaced in version 2, the file b is there since version 1.
abbrev pub old_a : ObjectRow
old_a = record {
  project = pos 1;
  start_version = pos 1;
  stop_version = some (pos 2);
  path = codes "a";
  hash = codes "old";
  mode = pos 420;
  size = pos 3;
  packed = false;
}

abbrev pub new_a : ObjectRow
new_a = record old_a { start_version = pos 2; stop_version = none; hash = codes "new" }

abbrev pub only_b : ObjectRow
only_b = record old_a { path = codes "b"; stop_version = none; hash = codes "b" }

abbrev pub two_versions : Tables
two_versions = record {
  projects = record { id = pos 1; latest_version = pos 2; pack_patterns = [] } ∷ [];
  objects = old_a ∷ new_a ∷ only_b ∷ [];
  contents = [];
  cache_versions = [];
  next_cache = pos 1;
}

apart :
    (v : ℤ) (r q : ObjectRow)
    → In r two_versions.objects
    → In q two_versions.objects
    → is_visible (pos 1) v r ≡ true
    → is_visible (pos 1) v q ≡ true
    → r.path ≡ q.path
    → r ≡ q
unfolding is_visible
apart v r q m n h k e = ground arith

pub two_versions-OneLive : OneLive (pos 1) two_versions.objects
two_versions-OneLive = record { same = apart }

pub two_versions_unique : is_unique two_versions.objects ≡ true
unfolding is_unique any clash bytes_eq
two_versions_unique = refl

-- The next version writes the file a again.
abbrev pub third_a : Object
third_a = record {
  path = codes "a";
  mode = pos 420;
  size = pos 5;
  deleted = false;
  content = codes "third";
}

started_early :
    (r : ObjectRow)
    → In r two_versions.objects
    → eqb_ℤ r.project (pos 1) ≡ true
    → r.start_version ≤ℤ pos 3
started_early r m h = ground arith

two_versions-IsOrdered :
    (r : ObjectRow)
    → In r two_versions.objects
    → eqb_ℤ r.project (pos 1) ≡ true
    → IsOrdered (pos 3) r
two_versions-IsOrdered r (inl e) h = rw e (ground arith)
two_versions-IsOrdered r (inr (inl e)) h = rw e tt
two_versions-IsOrdered r (inr (inr (inl e))) h = rw e tt
two_versions-IsOrdered r (inr (inr (inr none_left))) h = elim none_left [ ]

fresh_a :
    (r : ObjectRow)
    → In r two_versions.objects
    → eqb_ℤ r.project (pos 1) ≡ true
    → r.path ≡ codes "a"
    → eqb_ℤ r.start_version (pos 3) ≡ false
fresh_a r m h e = ground arith

pub two_versions-WellFormed : WellFormed (pos 1) (pos 3) two_versions.objects
two_versions-WellFormed = record {
  started = started_early;
  ordered = two_versions-IsOrdered;
  one = two_versions-OneLive;
}

pub third_a-Fresh : Fresh (pos 1) (pos 3) two_versions.objects third_a.path
third_a-Fresh = record { no_start = fresh_a }

pub third_a-IsReady : IsReady plain_codec (pos 1) (pos 3) third_a two_versions two_versions
third_a-IsReady = record {
  well_formed = two_versions-WellFormed;
  unique = two_versions_unique;
  fresh = third_a-Fresh;
}
