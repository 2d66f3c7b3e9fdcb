-- ===== src/Scripts/Migrate/Clean.antt =====
-- What `_statements` of scripts/migrate.py yields.
use corebank_api.Prelude.{
  inr, refl, inl, [], map, not, Bool-cases, arith, ◌∙◌, false, ◌==◌, ap, ◌∷◌, ◌≡◌, true, All, List,
  Bool, ℕ,
}
use corebank_api.PyText.{
  splitlines, join_lines, is_space, before, is_empty, strip, split, rstrip, lstrip,
}
use corebank_api.Scripts.Migrate.{is_comment, statements}
use corebank_api.Database.Rows.{select, exists}

-- no blank at either end, not empty, and without a semicolon
pub record IsClean (s : List ℕ) : Type 0 where
  pub stripped : strip s ≡ s
  pub nonempty : is_empty s ≡ false
  pub whole : exists (λ c. c == b';') s ≡ false

module _ (p : ℕ → Bool) where
  exists-lstrip : (s : List ℕ) → exists p s ≡ false → exists p (lstrip s) ≡ false
  unfolding lstrip
  exists-lstrip [] h = h
  exists-lstrip (c ∷ cs) h = ground (arith, exists-lstrip cs)

  exists-rstrip : (s : List ℕ) → exists p s ≡ false → exists p (rstrip s) ≡ false
  unfolding rstrip
  exists-rstrip [] h = h
  exists-rstrip (c ∷ cs) h = ground (arith, exists-rstrip cs)

rstrip_idem : (s : List ℕ) → rstrip (rstrip s) ≡ rstrip s
unfolding rstrip
rstrip_idem [] = refl
rstrip_idem (c ∷ cs) = ground (arith, rstrip_idem cs)

-- a text that does not begin with a blank
abbrev has_edge : List ℕ → Bool
has_edge [] = true
has_edge (c ∷ cs) = not (is_space c)

has_edge-lstrip : (s : List ℕ) → has_edge (lstrip s) ≡ true
unfolding lstrip
has_edge-lstrip [] = refl
has_edge-lstrip (c ∷ cs) = ground (arith, has_edge-lstrip cs)

has_edge-rstrip : (s : List ℕ) → has_edge s ≡ true → has_edge (rstrip s) ≡ true
unfolding rstrip
has_edge-rstrip [] h = refl
has_edge-rstrip (c ∷ cs) h = ground arith

lstrip_edge : (s : List ℕ) → has_edge s ≡ true → lstrip s ≡ s
unfolding lstrip
lstrip_edge [] h = refl
lstrip_edge (c ∷ cs) h = ground arith

pub strip_idem : (s : List ℕ) → strip (strip s) ≡ strip s
unfolding strip
strip_idem s =
    ap rstrip (lstrip_edge (rstrip (lstrip s)) (has_edge-rstrip (lstrip s) (has_edge-lstrip s)))
    ∙ rstrip_idem (lstrip s)

All-before :
    (c : ℕ) (ls : List (List ℕ)) (p : ℕ → Bool)
    → p c ≡ false
    → All (λ l. exists p l ≡ false) ls
    → All (λ l. exists p l ≡ false) (before c ls)
All-before c [] p h a = (rw h, tt)
All-before c (l ∷ ls) p h a = (rw h a.0, a.1)

split_whole : (sep : ℕ) (s : List ℕ) → All (λ l. exists (λ c. c == sep) l ≡ false) (split sep s)
unfolding split
split_whole sep [] = (refl, tt)
split_whole sep (c ∷ cs) = elim (Bool-cases (c == sep)) [
  | inl h ↦ rw h (refl, split_whole sep cs)
  | inr h ↦ rw h (All-before c (split sep cs) (λ d. d == sep) h (split_whole sep cs))
]

whole_strip :
    (l : List ℕ) → exists (λ c. c == b';') l ≡ false → exists (λ c. c == b';') (strip l) ≡ false
unfolding strip
whole_strip l h =
    let is_end : ℕ → Bool = λ c. c == b';' in
    exists-rstrip is_end (lstrip l) (exists-lstrip is_end l h)

IsClean-chunks :
    (chunks : List (List ℕ))
    → All (λ l. exists (λ c. c == b';') l ≡ false) chunks
    → All IsClean (select (λ chunk. not (is_empty chunk)) (map strip chunks))
IsClean-chunks [] h = tt
IsClean-chunks (l ∷ ls) h = elim (Bool-cases (is_empty (strip l))) [
  | inl e ↦ rw e (IsClean-chunks ls h.1)
  | inr e ↦ rw e (
    record { stripped = strip_idem l; nonempty = e; whole = whole_strip l h.0 },
    IsClean-chunks ls h.1,
  )
]

-- Whatever the text of a file, each of its statements is not empty, has no blank at either end, and
-- holds no semicolon.
pub statements-IsClean : (sql : List ℕ) → All IsClean (statements sql)
unfolding statements
statements-IsClean sql =
    let kept = join_lines (select (λ line. not (is_comment line)) (splitlines sql)) in
    IsClean-chunks (split b';' kept) (split_whole b';' kept)
