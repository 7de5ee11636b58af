-- ===== src/Prelude/Text.antt =====
-- Texts and byte strings as lists of codes: equality, prefixes and the split at a separator.
use Prim.Native.Nat.{ℕ}
use Prim.Native.Char.{code}
use Prim.Native.String.{String}
use mathlib.Core.Path.{◌≡◌, refl}
use mathlib.Core.Logic.{◌↔◌}
use mathlib.Core.Bool.{Bool, true, false, ◌&&◌}
use mathlib.Core.List.{List, [], ◌∷◌, ◌++◌}
use native.Mathlib.Omega.{arith}
use dateilager.Prelude.Tests.{◌==◌, if◌then◌else◌}

abbrev pub Bytes : Type 0
Bytes = List ℕ

abbrev pub codes : String → Bytes
codes String.[] = []
codes (String.◌∷◌ c s) = code c ∷ codes s

unfoldable pub bytes_eq : Bytes → Bytes → Bool
bytes_eq [] [] = true
bytes_eq [] (b ∷ bs) = false
bytes_eq (a ∷ as_) [] = false
bytes_eq (a ∷ as_) (b ∷ bs) = a == b && bytes_eq as_ bs

pub bytes_eq_iff : (a b : Bytes) → (bytes_eq a b ≡ true) ↔ (a ≡ b)
unfolding bytes_eq
bytes_eq_iff [] [] = ground arith
bytes_eq_iff [] (b ∷ bs) = ground arith
bytes_eq_iff (a ∷ r) [] = ground arith
bytes_eq_iff (a ∷ r) (b ∷ bs) = ground (arith, bytes_eq_iff r bs)

pub bytes_eq_refl : (a : Bytes) → bytes_eq a a ≡ true
bytes_eq_refl a = (bytes_eq_iff a a).1 refl

-- strings.HasPrefix(text, prefix), and STARTS_WITH of SQL.
unfoldable pub has_prefix : Bytes → Bytes → Bool
has_prefix text [] = true
has_prefix [] (c ∷ cs) = false
has_prefix (b ∷ bs) (c ∷ cs) = b == c && has_prefix bs cs

pub has_prefix-append : (a b : Bytes) → has_prefix (a ++ b) a ≡ true
unfolding has_prefix
has_prefix-append [] b = refl
has_prefix-append (x ∷ a) b = ground (arith, has_prefix-append a b)

-- RIGHT(text, 1) = '/' of SQL.
unfoldable pub ends_with_slash : Bytes → Bool
ends_with_slash [] = false
ends_with_slash (c ∷ []) = c == 47
ends_with_slash (c ∷ d ∷ r) = ends_with_slash (d ∷ r)

-- strings.Split(text, separator) for one character: at least one piece.
unfoldable pub split : ℕ → Bytes → List Bytes
split separator [] = [] ∷ []
split separator (c ∷ text) =
    let rest = split separator text in
    if c == separator
    then [] ∷ rest
    else elim rest [ [] ↦ (c ∷ []) ∷ [] | piece ∷ pieces ↦ (c ∷ piece) ∷ pieces ]

-- strings.Join(pieces, separator)
unfoldable pub join : Bytes → List Bytes → Bytes
join separator [] = []
join separator (piece ∷ []) = piece
join separator (piece ∷ next ∷ pieces) = piece ++ separator ++ join separator (next ∷ pieces)
