-- ===== src/Prelude/Text.antt =====
-- Texts that the code walks: character classes and the regular expressions of identifiers, over
-- code points.
use Prim.Native.Nat.{ℕ, zero, suc}
use Prim.Native.Char.{code}
use Prim.Native.String.{String, ◌++◌ as append}
use mathlib.Core.Bool.{Bool, true, false, ◌&&◌, ◌||◌}
use mathlib.Core.List.{List, [], ◌∷◌}
use agent_farm_runtime.Prelude.Tests.{leb, ltb, is_eq, if◌then◌else◌}
use agent_farm_runtime.Prelude.Lists.{all, any, length}

-- The code points of a text. `String` has its own `[]` and `∷`.
abbrev pub codes : String → List ℕ
codes String.[] = []
codes (String.◌∷◌ c s) = code c ∷ codes s

-- The truth of a text.
abbrev pub nonempty : String → Bool
nonempty String.[] = false
nonempty (String.◌∷◌ c s) = true

unfoldable pub is_digit : ℕ → Bool
is_digit c = leb b'0' c && leb c b'9'

-- `[A-Za-z0-9]`
unfoldable pub is_alnum : ℕ → Bool
unfolding is_digit
is_alnum c = is_digit c || (leb b'A' c && leb c b'Z') || (leb b'a' c && leb c b'z')

-- `[A-Za-z0-9_.-]`
unfoldable pub is_id_char : ℕ → Bool
unfolding is_alnum
is_id_char c = is_alnum c || is_eq c b'_' || is_eq c b'.' || is_eq c b'-'

-- `[A-Za-z0-9][A-Za-z0-9_.-]*`
unfoldable pub is_identifier : List ℕ → Bool
unfolding is_id_char all
is_identifier [] = false
is_identifier (c ∷ cs) = is_alnum c && all is_id_char cs

-- `[A-Za-z0-9][A-Za-z0-9_.-]{0,127}`
unfoldable pub is_short_identifier : List ℕ → Bool
unfolding is_identifier
is_short_identifier cs = is_identifier cs && leb (length cs) 128

-- `str.isspace`
unfoldable pub is_space : ℕ → Bool
unfolding any
is_space c =
    (leb 9 c && leb c 13)
    || (leb 28 c && leb c 32)
    || (leb 8192 c && leb c 8202)
    || any (is_eq c) (133 ∷ 160 ∷ 5760 ∷ 8232 ∷ 8233 ∷ 8239 ∷ 8287 ∷ 12288 ∷ [])

-- `bytes.isspace`
unfoldable pub is_byte_space : ℕ → Bool
is_byte_space c = (leb 9 c && leb c 13) || is_eq c 32

-- The truth of `text.strip()`.
unfoldable pub not_blank : String → Bool
unfolding is_space
not_blank String.[] = false
not_blank (String.◌∷◌ c s) = if is_space (code c) then not_blank s else true

-- The order of code points, by which `sorted` orders texts.
unfoldable pub codes_lt : List ℕ → List ℕ → Bool
codes_lt [] [] = false
codes_lt [] (d ∷ ds) = true
codes_lt (c ∷ cs) [] = false
codes_lt (c ∷ cs) (d ∷ ds) = ltb c d || (is_eq c d && codes_lt cs ds)

-- `s + t` on texts
abbrev pub cat : String → String → String
cat s t = append s t

-- `text[:n]`
unfoldable pub take_text : ℕ → String → String
take_text zero s = String.[]
take_text (suc n) String.[] = String.[]
take_text (suc n) (String.◌∷◌ c s) = String.◌∷◌ c (take_text n s)

-- `separator.join(texts)`
unfoldable pub join : String → List String → String
join sep [] = String.[]
join sep (s ∷ []) = s
join sep (s ∷ t ∷ rest) = cat s (cat sep (join sep (t ∷ rest)))

-- `Path(text).is_absolute()`
unfoldable pub is_absolute : String → Bool
is_absolute String.[] = false
is_absolute (String.◌∷◌ c s) = is_eq (code c) b'/'
