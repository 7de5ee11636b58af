-- ===== src/Db/Cache.antt =====
-- internal/db/cache.go and GetCacheTars of internal/db/query.go: the shared caches of packs.
use dateilager.Prelude.{
  ℕ, suc, Bool, ◌&&◌, Option, none, some, List, [], ◌∷◌, ◌++◌, map, ℤ, pos, negsuc, ◌+ℤ◌, leb_ℤ,
  leb, Bytes, bytes_eq, any, filter, take, if◌then◌else◌,
}
use dateilager.Result.{ok, err, query_failed}
use dateilager.Db.Schema.{Hash, ObjectRow, ContentRow, CacheRow, is_live}
use dateilager.Db.Session.{Tx, Statement, exec, pure, ◌>>=◌}
use dateilager.Db.Like.{like, like_prefix}

-- path LIKE $1 AND packed = true AND stop_version IS NULL
unfoldable pub is_impactful : Bytes → ObjectRow → Bool
is_impactful prefix o = like o.path (like_prefix prefix) && o.packed && is_live o

count_hash : Hash → List Hash → ℕ
count_hash hash [] = 0
count_hash hash (h ∷ hs) =
    let rest = count_hash hash hs in if bytes_eq h hash then suc rest else rest

distinct : List Hash → List Hash
distinct [] = []
distinct (h ∷ hs) = let rest = distinct hs in if any (bytes_eq h) hs then rest else h ∷ rest

insert_by_count : Hash × ℕ → List (Hash × ℕ) → List (Hash × ℕ)
insert_by_count g [] = g ∷ []
insert_by_count g (x ∷ xs) =
    let rest = insert_by_count g xs in if leb x.1 g.1 then g ∷ x ∷ xs else x ∷ rest

order_by_count : List (Hash × ℕ) → List (Hash × ℕ)
unfolding insert_by_count
order_by_count [] = []
order_by_count (g ∷ gs) = insert_by_count g (order_by_count gs)

-- impactful_packed_objects, before LIMIT: each hash with the number of its rows, most rows first
unfoldable pub impactful_hashes : Bytes → List ObjectRow → List (Hash × ℕ)
unfolding is_impactful count_hash distinct order_by_count
impactful_hashes prefix objects =
    let hashes = map (λ o. o.hash) (filter (is_impactful prefix) objects) in
    order_by_count (map (λ h. (h, count_hash h hashes)) (distinct hashes))

-- LIMIT $2; a negative limit is an error
unfoldable pub insert_cache : Bytes → ℤ → Statement ℤ
unfolding impactful_hashes
insert_cache prefix (negsuc count) t = err query_failed
insert_cache prefix (pos count) t =
    let hashes = map (λ g. g.0) (take count (impactful_hashes prefix t.objects)) in
    ok (
      t.next_cache,
      record t {
        cache_versions = record { version = t.next_cache; hashes = hashes } ∷ t.cache_versions;
        next_cache = t.next_cache +ℤ pos 1;
      },
    )

-- CreateCache
unfoldable pub create_cache : Bytes → ℤ → Tx ℤ
create_cache prefix count = exec (insert_cache prefix count)

abbrev newer : CacheRow → Option CacheRow → CacheRow
newer c none = c
newer c (some d) = if leb_ℤ d.version c.version then c else d

-- ORDER BY version DESC LIMIT 1
unfoldable pub latest_cache : List CacheRow → Option CacheRow
latest_cache [] = none
latest_cache (c ∷ cs) = some (newer c (latest_cache cs))

pub record CacheTar : Type 0 where
  pub version : ℤ
  pub bytes : Bytes
  pub hash : Hash

-- version_hashes JOIN dl.contents
unfoldable pub cache_rows : CacheRow → List ContentRow → List Hash → List CacheTar
cache_rows cache contents [] = []
cache_rows cache contents (hash ∷ hashes) =
    map (λ c. record { version = cache.version; bytes = c.bytes; hash = hash })
      (filter (λ c. bytes_eq c.hash hash) contents)
    ++ cache_rows cache contents hashes

-- GetCacheTars, with all that its stream returns before io.EOF
unfoldable pub get_cache_tars : Tx (List CacheTar)
unfolding latest_cache cache_rows
get_cache_tars = do
  latest ← exec (λ t. ok (latest_cache t.cache_versions, t))
  elim latest [
    | none ↦ pure []
    | some cache ↦ exec (λ t. ok (cache_rows cache t.contents cache.hashes, t))
  ]
