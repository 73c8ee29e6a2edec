-- ===== src/Base/Texts.antt =====
-- Go's operations on strings that the program uses: `len`, which counts the bytes of the UTF-8
-- encoding, `strings.Contains`, `strings.Split` and `strings.Replace`.
pub mod Prefix
use Prim.Native.Nat.{ℕ, ◌+◌}
use Prim.Native.Char.{Char, code}
use Prim.Native.String.{String, ◌++◌ as ◌<>◌}
use mathlib.Core.Bool.{Bool, true, false, ◌&&◌, ◌||◌}
use mathlib.Core.List.{List, [], ◌∷◌}
use go_service_bao_fight.Base.Tests.{◌==◌, ltb, if◌then◌else◌}

-- The bytes of a code point.
abbrev rune_len : ℕ → ℕ
rune_len c = if ltb c 0x80 then 1 else if ltb c 0x800 then 2 else if ltb c 0x10000 then 3 else 4

unfoldable pub byte_len : String → ℕ
byte_len String.[] = 0
byte_len (String.◌∷◌ c s) = rune_len (code c) + byte_len s

unfoldable pub has_prefix : String → String → Bool
has_prefix s String.[] = true
has_prefix String.[] (String.◌∷◌ d p) = false
has_prefix (String.◌∷◌ c s) (String.◌∷◌ d p) = code c == code d && has_prefix s p

unfoldable pub contains : String → String → Bool
unfolding has_prefix
contains String.[] p = has_prefix String.[] p
contains (String.◌∷◌ c s) p = has_prefix (String.◌∷◌ c s) p || contains s p

abbrev push : Char → List String → List String
push c [] = (String.◌∷◌ c String.[]) ∷ []
push c (w ∷ ws) = String.◌∷◌ c w ∷ ws

-- `strings.Split(s, ",")`
unfoldable pub split_commas : String → List String
split_commas String.[] = String.[] ∷ []
split_commas (String.◌∷◌ c s) =
    let rest = split_commas s in if code c == b',' then String.[] ∷ rest else push c rest

-- What stands behind a prefix.
abbrev pub behind : String → String → String
behind s String.[] = s
behind String.[] (String.◌∷◌ d p) = String.[]
behind (String.◌∷◌ c s) (String.◌∷◌ d p) = behind s p

-- `strings.Replace(s, old, new, 1)`, for an `old` that is not empty.
unfoldable pub replace_first : String → String → String → String
unfolding has_prefix
replace_first String.[] old new = String.[]
replace_first (String.◌∷◌ c s) old new =
    let rest = replace_first s old new in
    if has_prefix (String.◌∷◌ c s) old
    then new <> behind (String.◌∷◌ c s) old
    else String.◌∷◌ c rest
