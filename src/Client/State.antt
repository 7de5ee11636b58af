-- ===== src/Client/State.antt =====
-- Calls of pkg/client/client.go that send one request: the texts that they parse and print, and
-- the requests that they make. The remote procedure is an argument, which is a handler of the
-- server; the connection is left out.
use dateilager.Prelude.{
  ◌≡◌, refl, ap, ◌∙◌, not, ◌==◌, all, Option, none, some, List, [], ◌∷◌, ◌++◌, map, ℤ, Bytes, split,
  join, All,
}
use dateilager.Result.{Result, ok, err, bad_number, bad_state, ◌>>=◌}
use dateilager.Decimal.{
  parse_int, format_int, IsInt64, IsPiece, parse_int-format_int, format_int-IsPiece, split-append,
  split-piece, split-join, all-append,
}
use dateilager.Db.Session.{Tx, lift, pure}
use dateilager.Db.Session
use dateilager.Db.Project.{ProjectVersion}

-- fmt.Sprintf("%v=%v", id, version)
abbrev pub chunk_text : ProjectVersion → Bytes
chunk_text p = format_int p.id ++ b'=' ∷ format_int p.version

-- The text of Snapshot.
unfoldable pub state_text : List ProjectVersion → Bytes
state_text projects = join (b',' ∷ []) (map chunk_text projects)

-- Snapshot
unfoldable pub snapshot_state : Tx (List ProjectVersion) → Tx Bytes
snapshot_state remote = Session.◌>>=◌ remote (λ projects. pure (state_text projects))

abbrev parse_id : Bytes → Result ℤ
parse_id text = elim (parse_int text) [ none ↦ err bad_number | some v ↦ ok v ]

-- One turn of the loop of Reset.
abbrev pub parse_parts : List Bytes → Result ProjectVersion
parse_parts (id ∷ version ∷ []) = do
  project ← parse_id id
  number ← parse_id version
  ok (record { id = project; version = number })
parse_parts _ = err bad_state

unfoldable pub parse_chunks : List Bytes → Result (List ProjectVersion)
parse_chunks [] = ok []
parse_chunks (piece ∷ pieces) = do
  project ← parse_parts (split b'=' piece)
  projects ← parse_chunks pieces
  ok (project ∷ projects)

unfoldable pub parse_state : Bytes → Result (List ProjectVersion)
unfolding parse_chunks
parse_state state = parse_chunks (split b',' state)

-- Reset
unfoldable pub reset_state : (List ProjectVersion → Tx (Unit {0})) → Bytes → Tx (Unit {0})
unfolding parse_state
reset_state remote state = Session.◌>>=◌ (lift (parse_state state)) remote

-- NewProject: the patterns of a list with commas
unfoldable pub pack_patterns_of : Option Bytes → List Bytes
pack_patterns_of none = []
pack_patterns_of (some []) = []
pack_patterns_of (some (c ∷ text)) = split b',' (c ∷ text)

abbrev pub IsNumbered : ProjectVersion → Type 0
IsNumbered p = IsInt64 p.id × IsInt64 p.version

parse_parts-chunk_text :
    (p : ProjectVersion) → IsNumbered p → parse_parts (split b'=' (chunk_text p)) ≡ ok p
parse_parts-chunk_text p n =
    let pieces =
      split-append b'=' (format_int p.id) (format_int p.version) (format_int-IsPiece b'=' p.id refl)
      ∙ ap (λ t. format_int p.id ∷ t)
          (split-piece b'=' (format_int p.version) (format_int-IsPiece b'=' p.version refl)) in
    let id = parse_int-format_int p.id n.0 in
    let version = parse_int-format_int p.version n.1 in
    ap parse_parts pieces ∙ rw (id, version, parse_parts, parse_id) refl

chunk_text-IsPiece : (p : ProjectVersion) → IsPiece b',' (chunk_text p)
unfolding all
chunk_text-IsPiece p =
    let comma : (v : ℤ) → IsPiece b',' (format_int v) = λ v. format_int-IsPiece b',' v refl in
    all-append (λ c. not (c == b',')) (format_int p.id) (b'=' ∷ format_int p.version) (comma p.id)
      (rw (comma p.version, all) refl)

pieces-of : (projects : List ProjectVersion) → All (IsPiece b',') (map chunk_text projects)
pieces-of [] = tt
pieces-of (p ∷ projects) = (chunk_text-IsPiece p, pieces-of projects)

parse_chunks-texts :
    (projects : List ProjectVersion)
    → All IsNumbered projects
    → parse_chunks (map chunk_text projects) ≡ ok projects
unfolding parse_chunks
parse_chunks-texts [] n = refl
parse_chunks-texts (p ∷ projects) n =
    rw (parse_parts-chunk_text p n.0, parse_chunks-texts projects n.1, parse_chunks) refl

-- The state that Snapshot prints is read back by Reset, which sends the same projects with the same
-- versions to the server, if there is a project. The state of no project is the empty text, which
-- Reset refuses.
pub reset_state-state_text :
    (remote : List ProjectVersion → Tx (Unit {0})) (p : ProjectVersion)
    (projects : List ProjectVersion)
    → All IsNumbered (p ∷ projects)
    → (reset_state remote (state_text (p ∷ projects)) ≡ remote (p ∷ projects))
      × (reset_state remote (state_text []) ≡ lift (err bad_state))
unfolding reset_state state_text parse_state Session.◌>>=◌ split join
reset_state-state_text remote p projects n =
    let pieces =
      split-join b',' (chunk_text p) (map chunk_text projects) (pieces-of (p ∷ projects)) in
    let parsed = ap parse_chunks pieces ∙ parse_chunks-texts (p ∷ projects) n in
    (rw parsed refl, refl)
