-- ===== src/Prelude/Words.antt =====
-- Python's methods on texts, over code points: splitting, stripping and joining.
use Prim.Native.Nat.{ℕ, ◌-◌}
use mathlib.Core.Bool.{Bool, true, false, not, ◌&&◌, ◌||◌}
use mathlib.Core.Option.{Option, none, some}
use mathlib.Core.List.{List, [], ◌∷◌}
use native.Mathlib.Decide.{ℕ_discrete}
use mathlib.Core.Path.{◌≡◌, refl}
use native.Mathlib.Omega.{arith}
use agent_farm_runtime.Prelude.Tests.{contains, is_yes_iff, Eq, leb, is_eq, if◌then◌else◌}
use agent_farm_runtime.Prelude.Lists.{any, keep}
use agent_farm_runtime.Prelude.Text.{is_space}

-- A text as its code points.
abbrev pub Chars : Type 0
Chars = List ℕ

pub Chars-discrete : Discrete Chars
Chars-discrete = hlevel ℕ_discrete

instance abbrev pub chars_eq : Eq Chars
chars_eq = record { dec = Chars-discrete }

-- `bool(text)`
abbrev pub is_set : Chars → Bool
is_set [] = false
is_set (c ∷ cs) = true

-- `text.lstrip()`
unfoldable pub lstrip : Chars → Chars
unfolding is_space
lstrip [] = []
lstrip (c ∷ cs) = let rest = lstrip cs in if is_space c then rest else c ∷ cs

-- `text.rstrip(chars)` for the characters of a test
unfoldable pub rstrip : (ℕ → Bool) → Chars → Chars
rstrip p [] = []
rstrip p (c ∷ cs) = let rest = rstrip p cs in if p c && not (is_set rest) then [] else c ∷ rest

-- `text.strip()`
abbrev pub strip : Chars → Chars
strip s = rstrip is_space (lstrip s)

-- The first of `text.split()`, if there is one.
unfoldable pub take_word : Chars → Chars
unfolding is_space
take_word [] = []
take_word (c ∷ cs) = let rest = take_word cs in if is_space c then [] else c ∷ rest

abbrev pub first_word : Chars → Chars
first_word s = take_word (lstrip s)

-- `text.upper()`, in ASCII
unfoldable pub upper : Chars → Chars
upper [] = []
upper (c ∷ cs) = (if leb b'a' c && leb c b'z' then c - 32 else c) ∷ upper cs

-- The characters at which `splitlines` ends a line, and `\r\n` as one of them.
unfoldable pub is_line_end : ℕ → Bool
unfolding any
is_line_end c =
    (leb 10 c && leb c 13) || (leb 28 c && leb c 30) || any (is_eq c) (133 ∷ 8232 ∷ 8233 ∷ [])

-- A character goes to the line that follows it, or makes one.
abbrev pub to_line : ℕ → List Chars → List Chars
to_line c [] = (c ∷ []) ∷ []
to_line c (l ∷ ls) = (c ∷ l) ∷ ls

-- The lines of a text, of which the last one may be open.
unfoldable pub split_open : Chars → List Chars
unfolding is_line_end
split_open [] = [] ∷ []
split_open (c ∷ cs) =
    let rest = split_open cs in if is_line_end c then [] ∷ rest else to_line c rest

-- A text that ends with its line has no open line after it.
unfoldable pub drop_open : List Chars → List Chars
drop_open [] = []
drop_open (l ∷ []) = if is_set l then l ∷ [] else []
drop_open (l ∷ m ∷ rest) = l ∷ drop_open (m ∷ rest)

-- `text.splitlines()`, of a text that was read with universal newlines
abbrev pub splitlines : Chars → List Chars
splitlines s = drop_open (split_open s)

-- `text.partition(mark)`: the part before the first mark, and the part after it if there is one.
unfoldable pub before : ℕ → Chars → Chars
before mark [] = []
before mark (c ∷ cs) = let rest = before mark cs in if is_eq c mark then [] else c ∷ rest

unfoldable pub after_mark : ℕ → Chars → Option Chars
after_mark mark [] = none
after_mark mark (c ∷ cs) = let rest = after_mark mark cs in if is_eq c mark then some cs else rest

pub contains_self : (x : Chars) (xs : List Chars) → contains (x ∷ xs) x ≡ true
unfolding contains
contains_self x xs = rw ((is_yes_iff (Chars-discrete x x)).1 refl) refl

pub contains-keep :
    (p : Chars → Bool) (xs : List Chars) (j : Chars)
    → contains (keep p xs) j ≡ (contains xs j && p j)
unfolding contains keep
contains-keep p [] j = refl
contains-keep p (x ∷ xs) j = ground (arith, contains-keep p xs j, is_yes_iff (Chars-discrete j x))
