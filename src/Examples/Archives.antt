-- ===== src/Examples/Archives.antt =====
-- A lawful archive format and a cache that keeps everything, to apply the theorems about streams.
use dateilager.Prelude.{
  ℕ, zero, suc, ◌≡◌, refl, ap, ◌∙◌, Bool, true, false, not, Bool-cases, inl, inr, ◌⊎◌, Option,
  Option-cases, none, some, List, [], ◌∷◌, ◌++◌, append_assoc, Bytes, bytes_eq, bytes_eq_iff,
  if◌then◌else◌, In,
}
use dateilager.Result.{ok}
use dateilager.Codec.{TarEntry, Codec, IsLawful}
use dateilager.Db.Schema.{ContentRow}
use dateilager.Db.Query.{DbObject}
use dateilager.Db.Content.{MemoryCache, IsCache, decoded_if}
use dateilager.Db.Content.Sound.{stored}
use dateilager.Db.Stream.Chunks.{IsLoadable}
use dateilager.Examples.{places_in_order}

-- A text as its successors and a zero.
abbrev closed : Bytes → Bytes
closed [] = 0 ∷ []
closed (b ∷ bs) = suc b ∷ closed bs

abbrev closed_all : List Bytes → Bytes
closed_all [] = []
closed_all (x ∷ xs) = closed x ++ closed_all xs

abbrev closed_entry : TarEntry → Bytes
closed_entry e =
    closed_all (e.name ∷ (e.mode ∷ []) ∷ (e.type_flag ∷ []) ∷ e.link_name ∷ e.content ∷ [])

abbrev write_entries : List TarEntry → Bytes
write_entries [] = []
write_entries (e ∷ es) = closed_entry e ++ write_entries es

abbrev push : ℕ → List Bytes → List Bytes
push b [] = (b ∷ []) ∷ []
push b (piece ∷ pieces) = (b ∷ piece) ∷ pieces

abbrev pieces_of : Bytes → List Bytes
pieces_of [] = []
pieces_of (zero ∷ text) = [] ∷ pieces_of text
pieces_of (suc b ∷ text) = push b (pieces_of text)

abbrev group : List Bytes → List TarEntry
group (name ∷ (mode ∷ []) ∷ (flag ∷ []) ∷ link ∷ content ∷ rest) =
    record { name = name; mode = mode; type_flag = flag; link_name = link; content = content }
    ∷ group rest
group _ = []

pieces_of-closed : (x text : Bytes) → pieces_of (closed x ++ text) ≡ x ∷ pieces_of text
pieces_of-closed [] text = refl
pieces_of-closed (b ∷ x) text = ap (push b) (pieces_of-closed x text)

pieces_of-all :
    (xs : List Bytes) (text : Bytes) → pieces_of (closed_all xs ++ text) ≡ xs ++ pieces_of text
pieces_of-all [] text = refl
pieces_of-all (x ∷ xs) text =
    ap pieces_of (append_assoc (closed x) (closed_all xs) text)
    ∙ pieces_of-closed x (closed_all xs ++ text)
    ∙ ap (λ rest. x ∷ rest) (pieces_of-all xs text)

group-write : (es : List TarEntry) → group (pieces_of (write_entries es)) ≡ es
group-write [] = refl
group-write (e ∷ es) =
    ap group (
      pieces_of-all (e.name ∷ (e.mode ∷ []) ∷ (e.type_flag ∷ []) ∷ e.link_name ∷ e.content ∷ [])
        (write_entries es))
    ∙ ap (λ rest. e ∷ rest) (group-write es)

abbrev pub lawful_codec : Codec
lawful_codec = record {
  hash_content = λ content. content;
  encode = λ content. content;
  decode = λ content. ok content;
  write_tar = write_entries;
  read_tar = λ bytes. ok (group (pieces_of bytes));
  takes = λ entry. true;
  sort_order = places_in_order;
  is_pattern = λ pattern. true;
  matches = λ pattern text. bytes_eq pattern text;
}

pub lawful_codec-IsLawful : IsLawful lawful_codec
lawful_codec-IsLawful = record {
  decode-encode = λ content. refl;
  read_tar-write_tar = λ entries. ap ok (group-write entries);
  read_tar-nil = refl;
}

abbrev Kept : Type 0
Kept = List (Bytes × Bytes)

abbrev found_in : Kept → Bytes → Option Bytes
found_in [] key = none
found_in ((k, v) ∷ kept) key =
    let rest = found_in kept key in if bytes_eq k key then some v else rest

abbrev pub keep_all : MemoryCache Kept
keep_all = record { get = found_in; set = λ kept key value. (key, value) ∷ kept }

kept_or_set :
    (s : Kept) (key value other found : Bytes)
    → found_in ((key, value) ∷ s) other ≡ some found
    → ((other ≡ key) × (found ≡ value)) ⊎ (found_in s other ≡ some found)
kept_or_set s key value other found e = elim (Bool-cases (bytes_eq key other)) [
  | inl k ↦ inl (cc ((bytes_eq_iff key other).0 k), cc (rw k at e))
  | inr k ↦ inr (rw k at e)
]

pub keep_all-IsCache : IsCache keep_all
keep_all-IsCache = record { get-set = kept_or_set }

-- The content that a row of the table has, as it is.
abbrev pub row_content : List ContentRow → DbObject → Bytes
row_content rows o = elim (stored rows o.hash) [ none ↦ [] | some bytes ↦ bytes ]

pub row_content-IsLoadable :
    (rows : List ContentRow) (objects : List DbObject)
    → ((o : DbObject) → In o objects → o.cached ≡ false)
    → IsLoadable lawful_codec rows objects (row_content rows)
row_content-IsLoadable rows objects u = (
  λ o i. inr (
    u o i,
    elim (Option-cases (stored rows o.hash)) [
      | inl e ↦ inl (e, rw (e, row_content) refl)
      | inr (bytes, e) ↦ inr (bytes, e, rw (e, row_content) (either (not o.packed) bytes))
    ],
  ),
  λ o q i k c d h.
      ap (λ hash. elim (stored rows hash) as (λ _. Bytes) [ none ↦ [] | some bytes ↦ bytes ]) h,
)
  where
    either : (b : Bool) (bytes : Bytes) → decoded_if lawful_codec b bytes ≡ ok bytes
    either true bytes = refl
    either false bytes = refl
