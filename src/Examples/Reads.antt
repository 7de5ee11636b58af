-- ===== src/Examples/Reads.antt =====
-- GetCompress of pkg/api/fs.go on a project with a file and a pack.
use dateilager.Prelude.{
  all, any, true, ◌≡◌, refl, sym, subst, none, [], List, ◌∷◌, map, filter, All, ℤ, pos, Bytes,
  codes, arith, bytes_eq, find,
}
use dateilager.Result.{ok}
use dateilager.Auth.{admin}
use dateilager.Auth.Access.{may_read}
use dateilager.Db.Schema.{is_project, ObjectRow, Tables}
use dateilager.Db.Session.{calm, ◌>>=◌}
use dateilager.Db.Project.{get_latest_version, select_latest}
use dateilager.Db.Query.{
  build, query_without_removals, updated_objects, order_by_path, possible_objects, is_possible,
  is_updated, updated_object, is_cached, ObjectQuery, VersionRange,
}
use dateilager.Db.Stream.{new_version_range}
use dateilager.Db.Stream.Tars.{Tar, Sent, is_pack}
use dateilager.Db.Stream.Chunks.{IsLoadable}
use dateilager.Db.Stream.Batches.{IsTaken}
use dateilager.Db.Stream.Received.{packs_of, entries_of, archived, HasPath}
use dateilager.Api.Fs.Read.{get_compress, validate_object_query}
use dateilager.Api.Fs.Read.Served.{get_compress-read, rows_for}
use dateilager.Examples.{only_b, two_versions}
use dateilager.Examples.Archives.{
  lawful_codec, lawful_codec-IsLawful, keep_all, keep_all-IsCache, row_content,
  row_content-IsLoadable,
}
use dateilager.Examples.Streams.{
  rows, both, warm, none_cached, rows-IsKeyed, warm-IsSound, both-IsTaken,
}

abbrev row_a : ObjectRow
row_a = record only_b { path = codes "a"; hash = codes "ha"; size = pos 5 }

abbrev row_p : ObjectRow
row_p = record row_a { path = codes "p/"; hash = codes "hp"; packed = true }

abbrev pub read_tables : Tables
read_tables = record two_versions { objects = row_p ∷ row_a ∷ []; contents = rows }

abbrev pub whole : ObjectQuery
whole = record { path = []; is_prefix = true; ignores = [] }

abbrev to_latest : VersionRange
to_latest = record { from = pos 0; to = pos 2 }

latest_range :
    new_version_range (pos 1) none none (calm read_tables read_tables)
    ≡ (ok to_latest, calm read_tables read_tables)
unfolding new_version_range ◌>>=◌ get_latest_version select_latest find is_project
latest_range = refl

selected : rows_for (pos 1) to_latest [] whole read_tables ≡ both
unfolding build query_without_removals updated_objects order_by_path filter possible_objects
    is_possible is_updated bytes_eq all updated_object is_cached any
selected = refl

get_compress-read_example :
    (r : Sent (List (Bytes × Bytes)) (ℤ × Tar)) × (get_compress lawful_codec keep_all admin warm
        (pos 1)
        none
        none
        (whole ∷ [])
        []
        (calm two_versions read_tables)
      ≡ (r, calm read_tables read_tables))
    × (r.outcome ≡ ok tt)
    × All (λ a. a.0 ≡ to_latest.to) r.sent
    × (packs_of (map (λ a. a.1) r.sent)
        ≡ map
            (λ o. (o.path, row_content rows o))
            (filter is_pack (rows_for (pos 1) to_latest [] whole read_tables)))
    × (entries_of lawful_codec (map (λ a. a.1) r.sent)
        ≡ ok (archived (row_content rows) (rows_for (pos 1) to_latest [] whole read_tables)))
unfolding may_read validate_object_query
get_compress-read_example =
    get_compress-read lawful_codec keep_all admin (pos 1) none none [] to_latest whole two_versions
      read_tables (row_content rows) warm lawful_codec-IsLawful refl latest_range refl
      keep_all-IsCache rows-IsKeyed
      (subst (λ os. IsLoadable lawful_codec rows os (row_content rows)) (sym selected)
        (row_content-IsLoadable rows both none_cached))
      warm-IsSound
      (subst (All (IsTaken lawful_codec (row_content rows))) (sym selected) both-IsTaken)
      (subst (All HasPath) (sym selected) (omega arith, (omega arith, tt)))
