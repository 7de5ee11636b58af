-- ===== src/Files/Matcher.antt =====
-- FileMatcher of internal/files/writer.go. A compiled glob is a test on names.
use dateilager.Prelude.{Bool, true, not, ◌&&◌, Option, none, some, [], ◌∷◌, Bytes}
use dateilager.Result.{Result, ok, ◌>>=◌}

pub record FileMatcher : Type 0 where
  pub include : Option (Bytes → Bool)
  pub exclude : Option (Bytes → Bool)

-- glob.Compile, unless the pattern is empty
abbrev pub compile_if : (Bytes → Result (Bytes → Bool)) → Bytes → Result (Option (Bytes → Bool))
compile_if compile [] = ok none
compile_if compile (c ∷ pattern) = do glob ← compile (c ∷ pattern); ok (some glob)

-- NewFileMatcher
unfoldable pub new_file_matcher :
    (Bytes → Result (Bytes → Bool)) → Bytes → Bytes → Result FileMatcher
new_file_matcher compile include exclude = do
  included ← compile_if compile include
  excluded ← compile_if compile exclude
  ok (record { include = included; exclude = excluded })

-- Match
unfoldable pub match_name : FileMatcher → Bytes → Bool
match_name f name =
    let result : Bool = elim f.include [ none ↦ true | some glob ↦ glob name ] in
    elim f.exclude [ none ↦ result | some glob ↦ result && not (glob name) ]
