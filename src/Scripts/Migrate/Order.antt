-- ===== src/Scripts/Migrate/Order.antt =====
-- The order in which scripts/migrate.py takes the files of the folder.
use corebank_api.Scripts.Migrate.{File, insert_by_name, in_order}
use corebank_api.Services.Transaction.LockOrder.{lex_asym}
use corebank_api.Database.Rows.{count}
use corebank_api.Prelude.{
  Bool, false, List, ℕ, [], ◌∷◌, ◌++◌, codes, lex_lt, ◌≡◌, refl, arith, inl, inr, Bool-cases,
}

-- No name is below the one before it, by code points.
abbrev pub Ascends : List File → Type 0
Ascends [] = Unit
Ascends (f ∷ []) = Unit
Ascends (f ∷ g ∷ rest) =
    (lex_lt (codes g.stem ++ codes ".sql") (codes f.stem ++ codes ".sql") ≡ false)
    × Ascends (g ∷ rest)

-- The same files, each as often, by ascending name.
pub record IsSorted (files ordered : List File) : Type 0 where
  pub ascending : Ascends ordered
  pub same_files : (p : File → Bool) → count p ordered ≡ count p files

abbrev named : File → List ℕ
named f = codes f.stem ++ codes ".sql"

insert-Ascends : (f : File) (files : List File) → Ascends files → Ascends (insert_by_name f files)
unfolding insert_by_name
insert-Ascends f [] h = tt
insert-Ascends f (g ∷ []) h = elim (Bool-cases (lex_lt (named g) (named f))) [
  | inl up ↦ rw up (lex_asym (named g) (named f) up, tt)
  | inr down ↦ rw down (down, tt)
]
insert-Ascends f (g ∷ k ∷ rest) h =
    let below = insert-Ascends f (k ∷ rest) h.1 in
    elim (Bool-cases (lex_lt (named g) (named f))) [
      | inl up ↦ rw up (elim (Bool-cases (lex_lt (named k) (named f))) [
        | inl upper ↦ rw upper (h.0, rw upper at below)
        | inr lower ↦ rw lower (lex_asym (named g) (named f) up, (lower, h.1))
      ])
      | inr down ↦ rw down (down, h)
    ]

insert_count :
    (p : File → Bool) (f : File) (files : List File)
    → count p (insert_by_name f files) ≡ count p (f ∷ files)
unfolding insert_by_name
insert_count p f [] = refl
insert_count p f (g ∷ rest) = ground (arith, insert_count p f rest)

pub in_order-IsSorted : (files : List File) → IsSorted files (in_order files)
unfolding in_order
in_order-IsSorted [] = record { ascending = tt; same_files = λ p. refl }
in_order-IsSorted (f ∷ files) =
    let rest = in_order-IsSorted files in
    record {
      ascending = insert-Ascends f (in_order files) rest.ascending;
      same_files = λ p. omega (arith, insert_count p f (in_order files), rest.same_files p);
    }
