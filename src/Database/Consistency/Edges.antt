-- ===== src/Database/Consistency/Edges.antt =====
-- A table that refers to another by its foreign keys, when rows of the other come and go.
use corebank_api.Database.Statement.{Table, has_key}
use corebank_api.Database.Constraints.{refers}
use corebank_api.Database.Rows.{exists, select}
use corebank_api.Database.Consistency.References.{Found, Found-Grows, Found-left, Grows}
use corebank_api.Database.Consistency.Laws.{IsLawful, All-swap}
use corebank_api.Database.Engine.{Engine}
use corebank_api.Prelude.{
  sym, [], ◌∷◌, subst, not, All-zip, false, none, ◌≡◌, Option, All-map, All, String, List,
}
use corebank_api.Database.Schema.{Db}
use corebank_api.Database.Rows.Keys.{UniqueKey}

module _ ⦃e : Engine⦄ {P C : Type 0} (t : Table P) (u : Table C) where
  -- what a child's row refers to
  abbrev pub AllFound : List (C → Option String) → List P → C → Type 0
  AllFound refs rows c = All (λ ref. Found t.key ref rows c) refs

  -- The child's violations depend on the parent's rows by these columns only.
  pub record Edge (refs : List (C → Option String)) : Type 0 where
    pub rows_kept : (db : Db) (rows : List P) → u.rows (t.with_rows db rows) ≡ u.rows db
    pub out : (db : Db) (c : C) → u.violation db c ≡ none → AllFound refs (t.rows db) c
    pub into :
        (db : Db) (rows : List P) (c : C)
        → u.violation db c ≡ none
        → AllFound refs rows c
        → u.violation (t.with_rows db rows) c ≡ none

  module _ {refs : List (C → Option String)} (edge : Edge refs) (db : Db) (rows : List P)
      (h : IsLawful u db) where
    edge-Found :
        All (λ ref. All (Found t.key ref rows) (u.rows db)) refs → IsLawful u (t.with_rows db rows)
    edge-Found found =
        let children = u.rows db in
        let back = All-swap (λ ref c. Found t.key ref rows c) refs children found in
        let pass : All (λ c. u.violation (t.with_rows db rows) c ≡ none) children =
          All-map (λ c. (u.violation db c ≡ none) × AllFound refs rows c)
            (λ c. u.violation (t.with_rows db rows) c ≡ none) children
            (λ c both. edge.into db rows c both.0 both.1)
            (All-zip (λ c. u.violation db c ≡ none) (AllFound refs rows) children h.1 back) in
        subst (λ l. UniqueKey u.key l × All (λ c. u.violation (t.with_rows db rows) c ≡ none) l)
          (sym (edge.rows_kept db rows)) (h.0, pass)

    edge_old : All (λ ref. All (Found t.key ref (t.rows db)) (u.rows db)) refs
    edge_old =
        All-swap (λ c ref. Found t.key ref (t.rows db) c) (u.rows db) refs
          (All-map (λ c. u.violation db c ≡ none) (AllFound refs (t.rows db)) (u.rows db)
            (edge.out db) h.1)

    -- The parent keeps its keys.
    pub edge-Grows : Grows t.key (t.rows db) rows → IsLawful u (t.with_rows db rows)
    edge-Grows g = edge-Found (
        All-map (λ ref. All (Found t.key ref (t.rows db)) (u.rows db))
          (λ ref. All (Found t.key ref rows) (u.rows db)) refs
          (λ ref. Found-Grows t.key ref (t.rows db) rows (u.rows db) g) edge_old)

  -- The parent loses rows with a key that no child refers to.
  pub Edge-left :
      {refs : List (C → Option String)} (edge : Edge refs) (db : Db) (id : String)
      → IsLawful u db
      → ((x : P)
          → t.referenced db x ≡ false
          → All (λ ref. exists (λ c. refers (t.key x) (ref c)) (u.rows db) ≡ false) refs)
      → exists (t.referenced db) (select (has_key t id) (t.rows db)) ≡ false
      → IsLawful u (t.with_rows db (select (λ r. not (has_key t id r)) (t.rows db)))
  unfolding has_key
  Edge-left {refs} edge db id h restrict free =
      edge-Found edge db (select (λ r. not (has_key t id r)) (t.rows db)) h
        (go refs restrict (edge_old edge db (t.rows db) h))
    where
      go :
          (refs : List (C → Option String))
          → ((x : P)
              → t.referenced db x ≡ false
              → All (λ ref. exists (λ c. refers (t.key x) (ref c)) (u.rows db) ≡ false) refs)
          → All (λ ref. All (Found t.key ref (t.rows db)) (u.rows db)) refs
          → All
              (λ ref.
                All (Found t.key ref (select (λ r. not (has_key t id r)) (t.rows db))) (u.rows db))
              refs
      go [] rest old = tt
      go (ref ∷ refs) rest old = (
        Found-left t.key ref id (t.rows db) (t.referenced db) (u.rows db) (λ x k. (rest x k).0) free
            old.0,
        go refs (λ x k. (rest x k).1) old.1,
      )
