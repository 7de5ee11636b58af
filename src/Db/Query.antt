-- ===== src/Db/Query.antt =====
-- internal/db/queryBuilder.go and the types of internal/db/query.go: which objects a version range
-- holds. Each common table expression of the SQL text is a function on rows; `build` composes them
-- as the text does. The final SELECT carries the order of the expressions, which sort by path.
pub mod Members
pub mod Diff
use dateilager.Prelude.{
  ◌≡◌, Bool, true, false, not, ◌&&◌, ◌||◌, Option, none, some, List, [], ◌∷◌, ◌++◌, map, ℤ, pos,
  leb_ℤ, ltb_ℤ, eqb_ℤ, Bytes, bytes_eq, has_prefix, ends_with_slash, any, all, filter,
  if◌then◌else◌, codes, leb, ltb, ◌==◌,
}
use dateilager.Db.Schema.{Hash, ObjectRow, CacheRow, Tables}
use dateilager.Db.Like.{like, like_prefix}

pub record VersionRange : Type 0 where
  pub from : ℤ
  pub to : ℤ

-- pb.ObjectQuery
pub record ObjectQuery : Type 0 where
  pub path : Bytes
  pub is_prefix : Bool
  pub ignores : List Bytes

pub record DbObject : Type 0 where
  pub hash : Hash
  pub path : Bytes
  pub mode : ℤ
  pub size : ℤ
  pub deleted : Bool
  pub cached : Bool
  pub packed : Bool

pub record QueryBuilder : Type 0 where
  pub project : ℤ
  pub vrange : VersionRange
  pub object_query : ObjectQuery
  pub cache_versions : List ℤ

-- A comparison with NULL does not hold.
abbrev pub stops_after : ℤ → Option ℤ → Bool
stops_after v none = false
stops_after v (some stop) = ltb_ℤ v stop

abbrev pub stops_by : ℤ → Option ℤ → Bool
stops_by v none = false
stops_by v (some stop) = leb_ℤ stop v

abbrev pub outlives : ℤ → Option ℤ → Bool
outlives v none = true
outlives v (some stop) = ltb_ℤ v stop

-- start_version > from AND start_version <= to AND (stop_version IS NULL OR stop_version > to)
unfoldable pub is_added : VersionRange → ObjectRow → Bool
is_added vr r =
    ltb_ℤ vr.from r.start_version && leb_ℤ r.start_version vr.to && outlives vr.to r.stop_version

-- The predicate of possibleObjectsCTE.
unfoldable pub is_possible : QueryBuilder → Bool → ObjectRow → Bool
unfolding is_added
is_possible qb with_removals r =
    eqb_ℤ r.project qb.project
    && (if with_removals
        then is_added qb.vrange r
          || leb_ℤ r.start_version qb.vrange.to
            && (stops_after qb.vrange.from r.stop_version && stops_by qb.vrange.to r.stop_version)
        else is_added qb.vrange r)

-- possibleObjectsCTE
unfoldable pub possible_objects : QueryBuilder → Bool → List ObjectRow → List ObjectRow
possible_objects qb with_removals = filter (is_possible qb with_removals)

-- cachedObjectHashesCTE, as the set of hashes that it selects
unfoldable pub is_cached : QueryBuilder → List CacheRow → Hash → Bool
is_cached qb caches hash =
    any (λ c. any (eqb_ℤ c.version) qb.cache_versions && any (bytes_eq hash) c.hashes) caches

abbrev pub path_predicate : ObjectQuery → Bytes → Bool
path_predicate q path =
    if bytes_eq q.path []
    then true
    else if q.is_prefix
    then like path (like_prefix q.path)
    else bytes_eq path q.path

-- NOT LIKE ALL(ignores)
abbrev pub ignores_predicate : ObjectQuery → Bytes → Bool
ignores_predicate q path = all (λ ignore. not (like path (like_prefix ignore))) q.ignores

abbrev bytes_le : Bytes → Bytes → Bool
bytes_le [] b = true
bytes_le (x ∷ a) [] = false
bytes_le (x ∷ a) (y ∷ b) = ltb x y || x == y && bytes_le a b

insert_by_path : DbObject → List DbObject → List DbObject
insert_by_path o [] = o ∷ []
insert_by_path o (x ∷ xs) =
    let rest = insert_by_path o xs in if bytes_le o.path x.path then o ∷ x ∷ xs else x ∷ rest

-- ORDER BY o.path
unfoldable pub order_by_path : List DbObject → List DbObject
unfolding insert_by_path
order_by_path [] = []
order_by_path (o ∷ os) = insert_by_path o (order_by_path os)

-- The predicate and the columns of updatedObjectsCTE.
unfoldable pub is_updated : QueryBuilder → ObjectRow → Bool
unfolding is_added
is_updated qb o =
    eqb_ℤ o.project qb.project
    && is_added qb.vrange o
    && (path_predicate qb.object_query o.path && ignores_predicate qb.object_query o.path)

unfoldable pub updated_object : QueryBuilder → List CacheRow → ObjectRow → DbObject
updated_object qb caches o = record {
  hash = o.hash;
  path = o.path;
  mode = o.mode;
  size = o.size;
  deleted = false;
  cached = is_cached qb caches o.hash;
  packed = o.packed;
}

-- updatedObjectsCTE
unfoldable pub updated_objects : QueryBuilder → List CacheRow → List ObjectRow → List DbObject
updated_objects qb caches possible =
    order_by_path (map (updated_object qb caches) (filter (is_updated qb) possible))

abbrev pub zero_hash : Hash
zero_hash =
    0 ∷ 0 ∷ 0 ∷ 0 ∷ 0 ∷ 0 ∷ 0 ∷ 0 ∷ 0 ∷ 0 ∷ 0 ∷ 0 ∷ 0 ∷ 0 ∷ 0 ∷ 0 ∷ 0 ∷ 0 ∷ 0 ∷ 0 ∷ 0 ∷ 0 ∷ 0 ∷ 0
    ∷ 0 ∷ 0 ∷ 0 ∷ 0 ∷ 0 ∷ 0 ∷ 0 ∷ 0 ∷ []

-- The cases in which a removed path is not reported: it was written again, or something was
-- written below it.
unfoldable pub is_replaced : List DbObject → Bytes → Bool
is_replaced updated path =
    not (ends_with_slash path) && any (λ u. bytes_eq u.path path) updated
    || ends_with_slash path && any (λ u. has_prefix u.path path) updated
    || not (ends_with_slash path) && any (λ u. has_prefix u.path (path ++ codes "/")) updated

-- The predicate and the columns of removedObjectsCTE. It has no predicate on the queried path.
unfoldable pub is_removed : QueryBuilder → List DbObject → ObjectRow → Bool
is_removed qb updated o =
    eqb_ℤ o.project qb.project
    && leb_ℤ o.start_version qb.vrange.from
    && (stops_after qb.vrange.from o.stop_version && stops_by qb.vrange.to o.stop_version)
    && (ignores_predicate qb.object_query o.path && not (is_replaced updated o.path))

unfoldable pub removed_object : ObjectRow → DbObject
removed_object o = record {
  hash = zero_hash;
  path = o.path;
  mode = o.mode;
  size = pos 0;
  deleted = true;
  cached = false;
  packed = o.packed;
}

-- removedObjectsCTE
unfoldable pub removed_objects : QueryBuilder → List DbObject → List ObjectRow → List DbObject
removed_objects qb updated possible =
    order_by_path (map removed_object (filter (is_removed qb updated) possible))

-- queryWithoutRemovals
unfoldable pub query_without_removals : QueryBuilder → Tables → List DbObject
query_without_removals qb t =
    updated_objects qb t.cache_versions (possible_objects qb false t.objects)

-- queryWithRemovals: UNION ALL
unfoldable pub query_with_removals : QueryBuilder → Tables → List DbObject
query_with_removals qb t =
    let possible = possible_objects qb true t.objects in
    let updated = updated_objects qb t.cache_versions possible in
    updated ++ removed_objects qb updated possible

-- build, and the rows that the built query returns
unfoldable pub build : QueryBuilder → Tables → List DbObject
build qb t =
    if eqb_ℤ qb.vrange.from (pos 0) then query_without_removals qb t else query_with_removals qb t
