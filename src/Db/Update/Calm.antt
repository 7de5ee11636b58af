-- ===== src/Db/Update/Calm.antt =====
-- internal/db/update.go, UpdateObject as a whole, when no statement fails.
use dateilager.Prelude.{
  ◌≡◌, refl, inl, inr, true, false, not, List, ◌∷◌, arith, ℤ, any, Bool-cases, if◌then◌else◌,
}
use dateilager.Result.{ok}
use dateilager.Codec.{Codec}
use dateilager.Db.Schema.{
  ObjectRow, ContentRow, Tables, clash, is_unique, insert_or_skip, insert_content, update_rows,
}
use dateilager.Db.Session.{exec, has_row, pure, ◌>>◌, exec-then, calm, ◌>>=◌}
use dateilager.Db.History.Stops.{WellFormed}
use dateilager.Db.Reset.{set_rows, set_rows-ok}
use dateilager.Db.Update.{
  Object, insert_object, insert_contents, is_previous, new_row, update_object, stop_at,
}
use dateilager.Db.Update.Replace.{previous, replaced}
use dateilager.Db.Update.Placed.{Fresh, replaced_unique}

previous_new :
    (codec : Codec) (p version : ℤ) (object : Object)
    → previous codec p version object (new_row codec p version object) ≡ false
unfolding is_previous new_row
previous_new codec p version object = ground arith

rows_replaced :
    (codec : Codec) (p version : ℤ) (object : Object) (rows : List ObjectRow)
    → update_rows
        (previous codec p version object)
        (stop_at version)
        (new_row codec p version object ∷ rows)
      ≡ replaced codec p version object rows
unfolding update_rows replaced
rows_replaced codec p version object rows = rw (previous_new codec p version object) refl

stop_previous :
    (codec : Codec) (p version : ℤ) (object : Object) (t c : Tables) (rows : List ObjectRow)
    → is_unique (replaced codec p version object rows) ≡ true
    → (exec (set_rows (previous codec p version object) (stop_at version)) >> pure true)
        (calm (record t { objects = new_row codec p version object ∷ rows }) c)
      ≡ pure true (calm (record t { objects = replaced codec p version object rows }) c)
stop_previous codec p version object t c rows u = exec-then _ (pure true) _ c _ (
    set_rows-ok _ _ (record t { objects = new_row codec p version object ∷ rows }) _
      (rows_replaced codec p version object rows) u)

abbrev pub stored : Codec → Object → List ContentRow → List ContentRow
stored codec object =
    insert_content
      (record { hash = codec.hash_content object.content; bytes = codec.encode object.content })

-- The tables after UpdateObject: the content is stored also if the object was there before.
unfoldable pub after_update : Codec → ℤ → ℤ → Object → Tables → Tables
after_update codec p version object t =
    let contents = stored codec object t.contents in
    if any (clash (new_row codec p version object)) t.objects
    then record t { contents = contents }
    else record t { contents = contents; objects = replaced codec p version object t.objects }

-- On well-formed unique rows of which none at the object's path begins with the new version, and if
-- no statement fails, UpdateObject succeeds, and it reports a change exactly if the inserted row
-- clashes with no row. Then it has the row replace the previous ones. The content is durable at once.
pub update_object-calm :
    (codec : Codec) (p version : ℤ) (object : Object) (v c : Tables)
    → WellFormed p version v.objects
    → is_unique v.objects ≡ true
    → Fresh p version v.objects object.path
    → update_object codec p version object (calm v c) ≡ (
      ok (not (any (clash (new_row codec p version object)) v.objects)),
      calm
          (after_update codec p version object v)
          (record c { contents = stored codec object c.contents }),
    )
unfolding update_object has_row ◌>>=◌ insert_object insert_contents insert_or_skip after_update
update_object-calm codec p version object v c wf u fresh =
    elim (Bool-cases (any (clash (new_row codec p version object)) v.objects)) [
      | inl e ↦ rw e refl
      | inr e ↦
          let u' = replaced_unique codec p version object v.objects wf fresh u e in
          rw e (
            stop_previous codec p version object
              (record v { contents = stored codec object v.contents })
              (record c { contents = stored codec object c.contents }) v.objects u')
    ]
