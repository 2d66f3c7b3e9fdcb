-- ===== src/PyText.antt =====
-- Python's `str` methods that the code calls, on lists of code points.
use corebank_api.Prelude.{
  ◌++◌, ◌==◌, [], ◌||◌, if◌then◌else◌, ◌&&◌, true, false, ◌∷◌, List, leb, ℕ, Bool,
}

-- the line boundaries of `str.splitlines`
unfoldable pub is_break : ℕ → Bool
is_break c = leb 10 c && leb c 13 || leb 28 c && leb c 30 || c == 0x85 || c == 0x2028 || c == 0x2029

-- `str.isspace` of one character
unfoldable pub is_space : ℕ → Bool
is_space c =
    leb 9 c && leb c 13
    || leb 28 c && leb c 32
    || c == 0x85
    || c == 0xa0
    || c == 0x1680
    || leb 0x2000 c && leb c 0x200a
    || c == 0x2028
    || c == 0x2029
    || c == 0x202f
    || c == 0x205f
    || c == 0x3000

abbrev pub is_empty : {A : Type 0} → List A → Bool
is_empty [] = true
is_empty (x ∷ xs) = false

-- a character before the first of some pieces
abbrev pub before : ℕ → List (List ℕ) → List (List ℕ)
before c [] = (c ∷ []) ∷ []
before c (l ∷ ls) = (c ∷ l) ∷ ls

abbrev pub starts_with : ℕ → List ℕ → Bool
starts_with c [] = false
starts_with c (x ∷ xs) = x == c

-- `\r\n` is one boundary
unfoldable pub splitlines : List ℕ → List (List ℕ)
unfolding is_break
splitlines [] = []
splitlines (c ∷ cs) =
    let rest = splitlines cs in
    if c == 13 && starts_with 10 cs then rest else if is_break c then [] ∷ rest else before c rest

-- `text.split(sep)`, with a separator of one character
unfoldable pub split : ℕ → List ℕ → List (List ℕ)
split sep [] = [] ∷ []
split sep (c ∷ cs) = let rest = split sep cs in if c == sep then [] ∷ rest else before c rest

-- `"\n".join(lines)`
unfoldable pub join_lines : List (List ℕ) → List ℕ
join_lines [] = []
join_lines (l ∷ []) = l
join_lines (l ∷ m ∷ ls) = l ++ 10 ∷ join_lines (m ∷ ls)

unfoldable pub lstrip : List ℕ → List ℕ
unfolding is_space
lstrip [] = []
lstrip (c ∷ cs) = let rest = lstrip cs in if is_space c then rest else c ∷ cs

unfoldable pub rstrip : List ℕ → List ℕ
unfolding is_space
rstrip [] = []
rstrip (c ∷ cs) = let rest = rstrip cs in if is_empty rest && is_space c then [] else c ∷ rest

unfoldable pub strip : List ℕ → List ℕ
unfolding lstrip rstrip
strip s = rstrip (lstrip s)
