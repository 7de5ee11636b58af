-- ===== src/Examples/Trees.antt =====
-- internal/db on concrete tables: queries, updates, rollbacks and garbage collection.
use mathlib.Core.Option
use dateilager.Prelude.{
  inl, inr, ◌≡◌, ◌≢◌, refl, Bool, true, false, not, Option, none, some, List, [], ◌∷◌, ℤ, pos,
  negsuc, ◌≤ℤ◌, ◌<ℤ◌, Bytes, codes, bytes_eq, any, all, find, arith, ℕ, ◌≤◌, length, All,
  has_prefix,
}
use dateilager.Result.{ok}
use dateilager.Db.Schema.{clash, is_unique, is_project}
use dateilager.Db.Session.{calm}
use dateilager.Db.History.{tree_at}
use dateilager.Db.History.Stops.{WellFormed}
use dateilager.Db.Query.{build}
use dateilager.Db.Query.Diff.{whole, apply_diff, is_covered}
use dateilager.Db.Query.Diff.Correct.{apply_diff-build}
use dateilager.Db.Reset.Trees.{reset_rows, reset_project-apart, reset_project-later}
use dateilager.Db.Update.{update_object, new_row, previous_paths}
use dateilager.Db.Update.Calm.{after_update, stored, update_object-calm}
use dateilager.Db.Update.Trees.{
  updated_rows, content_of, update_object-path, update_object-apart, update_object-invariant,
}
use dateilager.Db.Gc.{gc_content_hashes}
use dateilager.Db.Gc.Safety.{after_gc, SameBut, tree_at-gc_project_objects, gc_content_hashes_lem}
use dateilager.Examples.{
  plain_codec, two_versions, two_versions-OneLive, two_versions_unique, two_versions-WellFormed,
  third_a, third_a-Fresh, third_a-IsReady,
}

other_project : pos 2 ≢ pos 1
other_project e = ground arith

not_first : pos 1 ≢ pos 0
not_first e = ground arith

nothing_below :
    is_covered (build (whole (pos 1) (pos 1) (pos 2) []) two_versions) (codes "a") ≡ false
unfolding is_covered any build dateilager.Db.Query.query_with_removals
    dateilager.Db.Query.updated_objects dateilager.Db.Query.order_by_path dateilager.Prelude.filter
    dateilager.Db.Query.possible_objects dateilager.Db.Query.is_possible
    dateilager.Db.Query.is_updated bytes_eq all dateilager.Db.Query.updated_object
    dateilager.Prelude.ends_with_slash has_prefix dateilager.Db.Query.removed_objects
    dateilager.Db.Query.is_removed dateilager.Db.Query.is_replaced
nothing_below = refl

apply_diff-build_example :
    apply_diff
      (build (whole (pos 1) (pos 1) (pos 2) []) two_versions)
      (tree_at two_versions.objects (pos 1) (pos 1))
      (codes "a")
    ≡ tree_at two_versions.objects (pos 1) (pos 2) (codes "a")
apply_diff-build_example =
    apply_diff-build (pos 1) (pos 1) (pos 2) [] two_versions (codes "a") two_versions-OneLive
      not_first (omega arith) nothing_below

reset_project-apart_example :
    tree_at (reset_rows (pos 1) (pos 1) two_versions two_versions) (pos 1) (pos 1) (codes "a")
    ≡ tree_at two_versions.objects (pos 1) (pos 1) (codes "a")
reset_project-apart_example =
    reset_project-apart (pos 1) (pos 1) (pos 1) (pos 1) (codes "a") two_versions two_versions
      two_versions-OneLive two_versions_unique (inl (refl, omega arith))

reset_project-later_example :
    tree_at (reset_rows (pos 1) (pos 1) two_versions two_versions) (pos 1) (pos 2) (codes "a")
    ≡ tree_at two_versions.objects (pos 1) (pos 1) (codes "a")
reset_project-later_example =
    reset_project-later (pos 1) (pos 1) (pos 2) (codes "a") two_versions two_versions
      two_versions-OneLive two_versions_unique (omega arith)

update_object-calm_example :
    update_object plain_codec (pos 1) (pos 3) third_a (calm two_versions two_versions) ≡ (
      ok (not (any (clash (new_row plain_codec (pos 1) (pos 3) third_a)) two_versions.objects)),
      calm
          (after_update plain_codec (pos 1) (pos 3) third_a two_versions)
          (record two_versions { contents = stored plain_codec third_a two_versions.contents }),
    )
update_object-calm_example =
    update_object-calm plain_codec (pos 1) (pos 3) third_a two_versions two_versions
      two_versions-WellFormed two_versions_unique third_a-Fresh

update_object-path_example :
    Option.map content_of (
      tree_at
        (updated_rows plain_codec (pos 1) (pos 3) third_a two_versions two_versions)
        (pos 1)
        (pos 3)
        (codes "a"))
    ≡ some (codes "third", pos 420)
update_object-path_example =
    update_object-path plain_codec (pos 1) (pos 3) third_a two_versions two_versions third_a-IsReady

b_is_apart : any (bytes_eq (codes "b")) (previous_paths (codes "a")) ≡ false
unfolding any previous_paths bytes_eq
b_is_apart = refl

update_object-apart_example :
    tree_at
      (updated_rows plain_codec (pos 1) (pos 3) third_a two_versions two_versions)
      (pos 1)
      (pos 3)
      (codes "b")
    ≡ tree_at two_versions.objects (pos 1) (pos 3) (codes "b")
update_object-apart_example =
    update_object-apart plain_codec (pos 1) (pos 3) third_a two_versions two_versions
      third_a-IsReady (pos 1) (pos 3) (codes "b") (inr (inr (refl, refl, b_is_apart)))

update_object-invariant_example :
    WellFormed
      (pos 1)
      (pos 3)
      (updated_rows plain_codec (pos 1) (pos 3) third_a two_versions two_versions)
    × (is_unique (updated_rows plain_codec (pos 1) (pos 3) third_a two_versions two_versions)
        ≡ true)
update_object-invariant_example =
    update_object-invariant plain_codec (pos 1) (pos 3) third_a two_versions two_versions
      third_a-IsReady

project_found :
    find (is_project (pos 1)) two_versions.projects
    ≡ some (record { id = pos 1; latest_version = pos 2; pack_patterns = [] })
unfolding is_project find
project_found = refl

tree_at-gc_project_objects_example :
    tree_at
      (after_gc (pos 1) (pos 1) (pos 0) two_versions).committed.objects
      (pos 1)
      (pos 1)
      (codes "a")
    ≡ tree_at two_versions.objects (pos 1) (pos 1) (codes "a")
unfolding dateilager.Prelude.◌+ℤ◌
tree_at-gc_project_objects_example =
    tree_at-gc_project_objects (pos 1) (pos 1) (pos 0) (pos 1) (pos 1) (codes "a") two_versions (
      inl (
        refl,
        (
          record { id = pos 1; latest_version = pos 2; pack_patterns = [] },
          project_found,
          omega arith,
        ),
      ))

gc_content_hashes_lem_example :
    SameBut
      (calm two_versions two_versions)
      (codes "old" ∷ [])
      (gc_content_hashes (codes "old" ∷ []) (calm two_versions two_versions)).1
gc_content_hashes_lem_example = gc_content_hashes_lem (codes "old" ∷ []) two_versions two_versions
