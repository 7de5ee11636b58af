-- ===== src/Examples/Packs.antt =====
-- internal/db/tar.go on a concrete pack.
use dateilager.Prelude.{◌≡◌, some, true, [], ◌∷◌, codes}
use dateilager.Result.{◌>>=◌}
use dateilager.Db.Update.{Object}
use dateilager.Db.Tar.{update_objects, sort_updates}
use dateilager.Db.Tar.Merge.{merged}
use dateilager.Db.Tar.Merge.Packed.{packed, update_objects_lem}
use dateilager.Examples.{plain_codec, third_a}

abbrev deleted_b : Object
deleted_b = record third_a { path = codes "b"; deleted = true }

update_objects_lem_example :
    update_objects plain_codec [] (deleted_b ∷ third_a ∷ [])
    ≡ some (
        plain_codec.read_tar [] >>= λ entries.
        packed plain_codec (merged entries (sort_updates plain_codec (deleted_b ∷ third_a ∷ []))))
update_objects_lem_example = update_objects_lem plain_codec [] (deleted_b ∷ third_a ∷ [])
