-- ===== src/Base/Text.antt =====
-- Python's `str`: membership in a literal set, `strip`, `split` at whitespace, `startswith`.
use Prim.Native.Nat.{ℕ, zero, suc}
use mathlib.Core.Option.{Option, none, some}
use Prim.Native.Char.{Char, code}
use Prim.Native.String.{String}
use mathlib.Core.Bool.{Bool, true, false, ◌&&◌, ◌||◌}
use mathlib.Core.List.{List, [], ◌∷◌}
use text.Mathlib.Text.{◌==◌ as str_eq, find?}
use Prim.Native.String.{◌++◌}
use eidolon_agent.Base.Tests.{leb, ◌==◌, if◌then◌else◌}

-- `key in {…}` or `key in […]`.
abbrev pub str_mem : String → List String → Bool
str_mem s [] = false
str_mem s (x ∷ xs) = str_eq s x || str_mem s xs

-- The code points for which `str.isspace` holds, which `strip` and `split` remove.
pub is_space : Char → Bool
is_space ch =
    let c = code ch in
    (leb 9 c && leb c 13)
    || (leb 28 c && leb c 32)
    || c == 0x85
    || c == 0xa0
    || c == 0x1680
    || (leb 0x2000 c && leb c 0x200a)
    || c == 0x2028
    || c == 0x2029
    || c == 0x202f
    || c == 0x205f
    || c == 0x3000

lstrip : String → String
unfolding is_space
lstrip String.[] = ""
lstrip (String.◌∷◌ c s) = let rest = lstrip s in if is_space c then rest else String.◌∷◌ c s

-- Cuts the spaces at the end: a space stays if something other than spaces follows it.
rstrip : String → String
unfolding is_space
rstrip String.[] = ""
rstrip (String.◌∷◌ c s) =
    let rest = rstrip s in if is_space c && str_eq rest "" then "" else String.◌∷◌ c rest

-- `s.strip()`
unfoldable pub strip : String → String
unfolding lstrip rstrip
strip s = rstrip (lstrip s)

-- `s[:n]`: the first characters.
abbrev pub first_chars : ℕ → String → String
first_chars zero s = ""
first_chars (suc n) String.[] = ""
first_chars (suc n) (String.◌∷◌ c s) = String.◌∷◌ c (first_chars n s)

-- Equality of two optional texts, `a == b` where either may be None.
abbrev pub opt_eq : Option String → Option String → Bool
opt_eq none none = true
opt_eq (some a) (some b) = str_eq a b
opt_eq _ _ = false

-- The word that begins here, and the words behind it.
words : String → String × List String
unfolding is_space
words String.[] = ("", [])
words (String.◌∷◌ c s) =
    let (w, ws) = words s in
    if is_space c then ("", if str_eq w "" then ws else w ∷ ws) else (String.◌∷◌ c w, ws)

-- `s.split()`
unfoldable pub split : String → List String
unfolding words
split s = let (w, ws) = words s in if str_eq w "" then ws else w ∷ ws

-- `sep.join(ws)`
abbrev pub join : String → List String → String
join sep [] = ""
join sep (w ∷ ws) = join_from w ws
  where
    join_from : String → List String → String
    join_from acc [] = acc
    join_from acc (x ∷ xs) = join_from (acc ++ sep ++ x) xs

-- `key in s` for texts.
abbrev pub contains_text : String → String → Bool
contains_text key s = elim (find? s key) [ none ↦ false | some _ ↦ true ]

-- `s.split(sep)` for a separator of one character: the piece before it, and the pieces behind.
abbrev pieces_on : Char → String → String × List String
pieces_on sep String.[] = ("", [])
pieces_on sep (String.◌∷◌ c s) =
    let (w, ws) = pieces_on sep s in
    if code c == code sep then ("", w ∷ ws) else (String.◌∷◌ c w, ws)

abbrev pub split_on : Char → String → List String
split_on sep s = let (w, ws) = pieces_on sep s in w ∷ ws
