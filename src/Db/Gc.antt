-- ===== src/Db/Gc.antt =====
-- internal/db/gc.go: deleting what no kept version shows, and contents that no object names. Each
-- statement runs outside a transaction.
pub mod Safety
pub mod Chunks
use dateilager.Prelude.{
  ℕ, zero, suc, ◌+◌, ◌/◌, ◌≡◌, Bool, true, false, not, ◌&&◌, Option, none, some, List, [], ◌∷◌,
  ◌++◌, map, ℤ, pos, ◌+ℤ◌, ◌-ℤ◌, eqb_ℤ, ltb_ℤ, leb_ℤ, ltb, leb, ◌==◌, bytes_eq, any, filter, find,
  length, take, drop, if◌then◌else◌,
}
use dateilager.Result.{Result, ok, err}
use dateilager.Db.Schema.{Hash, ProjectRow, ObjectRow, ContentRow, Tables, is_project}
use dateilager.Db.Query.{stops_by}
use dateilager.Db.Session.{Tx, Statement, exec_outside, pure, ◌>>=◌, ◌>>◌}

-- The threshold is NULL, and nothing is deleted, if the project is missing.
abbrev is_before_kept : Option ProjectRow → ℤ → ObjectRow → Bool
is_before_kept none keep r = false
is_before_kept (some p) keep r = stops_by (p.latest_version -ℤ keep) r.stop_version

-- The WHERE clause of GcProjectObjects.
unfoldable pub is_collected : List ProjectRow → ℤ → ℤ → ℤ → ObjectRow → Bool
unfolding is_project
is_collected projects project keep from_version r =
    eqb_ℤ r.project project
    && ltb_ℤ from_version r.start_version
    && is_before_kept (find (is_project project) projects) keep r

unfoldable pub delete_collected : ℤ → ℤ → ℤ → Statement (List Hash)
delete_collected project keep from_version t =
    let collected = is_collected t.projects project keep from_version in
    ok (
      map (λ r. r.hash) (filter collected t.objects),
      record t { objects = filter (λ r. not (collected r)) t.objects },
    )

-- GcProjectObjects
unfoldable pub gc_project_objects : ℤ → ℤ → ℤ → Tx (List Hash)
gc_project_objects project keep from_version =
    exec_outside (delete_collected project keep from_version)

-- GcProjectsObjects
unfoldable pub gc_projects_objects : List ℤ → ℤ → ℤ → Tx (List Hash)
gc_projects_objects [] keep from_version = pure []
gc_projects_objects (project ∷ projects) keep from_version = do
  hashes ← gc_project_objects project keep from_version
  rest ← gc_projects_objects projects keep from_version
  pure (hashes ++ rest)

-- c.hash = ANY($1) and no object has the hash
unfoldable pub is_missing : List Hash → List ObjectRow → ContentRow → Bool
is_missing hashes objects c =
    any (bytes_eq c.hash) hashes && not (any (λ o. bytes_eq o.hash c.hash) objects)

unfoldable pub delete_missing : List Hash → Statement ℤ
delete_missing hashes t =
    let missing = is_missing hashes t.objects in
    ok (
      pos (length (filter missing t.contents)),
      record t { contents = filter (λ c. not (missing c)) t.contents },
    )

-- The loop of `chunk`, on fuel; the slices that it cuts off have `size` items.
chunk_from {ℓ} : {A : Type ℓ} → ℕ → ℕ → List A → List (List A)
chunk_from zero size items = items ∷ []
chunk_from (suc fuel) size items =
    let rest = chunk_from fuel size (drop size items) in
    if ltb size (length items) then take size items ∷ rest else items ∷ []

-- chunk
unfoldable pub chunk {ℓ} : {A : Type ℓ} → List A → ℕ → List (List A)
unfolding chunk_from
chunk items size = chunk_from (length items) size items

gc_chunks : List (List Hash) → ℤ → Tx ℤ
gc_chunks [] rows_affected = pure rows_affected
gc_chunks (hashes ∷ chunks) rows_affected = do
  count ← exec_outside (delete_missing hashes)
  gc_chunks chunks (rows_affected +ℤ count)

-- GcContentHashes
unfoldable pub gc_content_hashes : List Hash → Tx ℤ
unfolding gc_chunks
gc_content_hashes hashes =
    if length hashes == 0 then pure (pos 0) else gc_chunks (chunk hashes 500) (pos 0)
