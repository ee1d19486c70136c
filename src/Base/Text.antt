-- ===== src/Base/Text.antt =====
-- Text: the tests that the program makes on a `str`.
use Prim.Native.Nat.{ℕ, suc}
use Prim.Native.Char.{code}
use Prim.Native.String.{String, ◌++◌}
use mathlib.Core.List.{List, [], ◌∷◌}
use mathlib.Core.Bool.{Bool, true, false, ◌&&◌, ◌||◌}
use llm_calling.Base.Tests.{ltb, ◌==◌}

-- `s + t`
abbrev pub str_append : String → String → String
str_append s t = s ++ t

-- `len(s)`
unfoldable pub str_length : String → ℕ
str_length String.[] = 0
str_length (String.◌∷◌ c s) = suc (str_length s)

-- `s.isascii()`
unfoldable pub is_ascii : String → Bool
is_ascii String.[] = true
is_ascii (String.◌∷◌ c s) = ltb (code c) 128 && is_ascii s

-- The code points of a text: its bytes, if it is ASCII.
abbrev pub codes : String → List ℕ
codes String.[] = []
codes (String.◌∷◌ c s) = code c ∷ codes s

-- `"".join(parts)`
abbrev pub join : List String → String
join [] = ""
join (s ∷ rest) = str_append s (join rest)

-- `part in s`
abbrev pub starts_with : String → String → Bool
starts_with String.[] s = true
starts_with (String.◌∷◌ c part) String.[] = false
starts_with (String.◌∷◌ c part) (String.◌∷◌ d s) =
    let rest = starts_with part s in code c == code d && rest

abbrev pub contains : String → String → Bool
contains part String.[] = starts_with part String.[]
contains part (String.◌∷◌ c s) =
    let rest = contains part s in starts_with part (String.◌∷◌ c s) || rest
