-- ===== src/Db/Query/Diff.antt =====
-- The built query against the trees of the project: the rows for a version range are exactly what
-- takes a copy of the tree at its start to the tree at its end.
pub mod Rows
pub mod Correct
use dateilager.Prelude.{
  ◌≡◌, ◌≢◌, refl, sym, ap, ◌∙◌, ◌⊎◌, inl, inr, Bool, true, false, not, ◌&&◌, ◌||◌, Option, none,
  some, List, [], ◌++◌, arith, ℤ, pos, leb_ℤ, ltb_ℤ, eqb_ℤ, ◌≤ℤ◌, eqb_ℤ_iff, Bytes, bytes_eq,
  bytes_eq_iff, any, find, all, In, In-append, any→In, In→any, any-false, find-cases,
  none→any_false, Bool-cases, ends_with_slash, has_prefix, codes, if◌then◌else◌,
}
use dateilager.Db.Schema.{ObjectRow, Tables}
use dateilager.Db.Query.{
  VersionRange, QueryBuilder, DbObject, is_added, is_possible, possible_objects, is_updated,
  updated_object, updated_objects, is_removed, removed_object, removed_objects, is_replaced, build,
  query_with_removals, query_without_removals,
}
use dateilager.Db.Query.Members.{FromRow, In-selected}
use dateilager.Db.History.{
  Entry, row_entry, Tree, is_visible, is_visible_at, tree_at, tree_at-cases, tree_at-visible,
  OneLive,
}

-- The query for all paths, which client.Update, Inspect and a Rebuild without a prefix send.
abbrev pub whole : ℤ → ℤ → ℤ → List ℤ → QueryBuilder
whole p from to cache_versions = record {
  project = p;
  vrange = record { from = from; to = to };
  object_query = record { path = []; is_prefix = true; ignores = [] };
  cache_versions = cache_versions;
}

abbrev pub object_entry : DbObject → Entry
object_entry o = record { hash = o.hash; mode = o.mode; size = o.size; packed = o.packed }

abbrev pub is_written : Bytes → DbObject → Bool
is_written path o = not o.deleted && bytes_eq o.path path

abbrev pub is_erased : Bytes → DbObject → Bool
is_erased path o = o.deleted && bytes_eq o.path path

-- A copy of a tree after the objects are applied: what is written wins, then what is deleted.
unfoldable pub apply_diff : List DbObject → Tree → Tree
apply_diff diff base path = elim (find (is_written path) diff) [
  | some o ↦ some (object_entry o)
  | none ↦ elim (any (is_erased path) diff) [ true ↦ none | false ↦ base path ]
]

-- The object writes below the directory that the path would be.
abbrev pub is_below : Bytes → DbObject → Bool
is_below path o =
    not o.deleted
    && (if ends_with_slash path
        then has_prefix o.path path
        else has_prefix o.path (path ++ codes "/"))

-- Not written itself, and something is written below it: the copy holds a directory there.
unfoldable pub is_covered : List DbObject → Bytes → Bool
is_covered diff path = any (is_below path) diff && not (any (is_written path) diff)
