-- ===== src/Scripts/Migrate.antt =====
-- scripts/migrate.py: applies the pending SQL files in order. The server's own reaction to a
-- statement is a parameter; the connection commits each statement by itself.
pub mod Applied
pub mod Clean
pub mod Failed
pub mod Sent
pub mod Order
use corebank_api.Prelude.{
  true, map, ◌&&◌, not, ◌==◌, ◌++◌, false, [], ◌+◌, codes, if◌then◌else◌, Bool, ◌∷◌, ℕ, str_eq,
  lex_lt, List, String,
}
use corebank_api.Database.Engine.{dup_entry, server_error, same, Engine}
use corebank_api.Errors.{err, ok, Result}
use corebank_api.PyText.{is_empty, starts_with, join_lines, split, splitlines, strip}
use corebank_api.Database.Rows.{select, exists}

-- What runs a statement on the server, which is not in the repository.
pub record Server (S : Type 0) : Type 0 where
  pub execute : List ℕ → S → Result (Unit {0}) × S

-- A file `<stem>.sql` of the folder of migrations.
pub record File : Type 0 where
  pub stem : String
  pub text : List ℕ

-- The server's own state, and the rows of `schema_migrations`.
pub record Store (S : Type 0) : Type 0 where
  pub state : S
  pub versions : List String

abbrev pub has_dashes : List ℕ → Bool
has_dashes [] = false
has_dashes (c ∷ cs) = c == b'-' && starts_with b'-' cs

-- `ln.strip().startswith("--")`
unfoldable pub is_comment : List ℕ → Bool
unfolding strip
is_comment line = has_dashes (strip line)

-- `_statements`
unfoldable pub statements : List ℕ → List (List ℕ)
unfolding splitlines split join_lines strip is_comment
statements sql =
    let lines = select (λ line. not (is_comment line)) (splitlines sql) in
    select (λ chunk. not (is_empty chunk)) (map strip (split b';' (join_lines lines)))

-- `sorted` on the paths: by file name, files of one folder having no two of one name
abbrev file_name : File → List ℕ
file_name f = codes f.stem ++ codes ".sql"

unfoldable pub insert_by_name : File → List File → List File
unfolding lex_lt
insert_by_name f [] = f ∷ []
insert_by_name f (g ∷ rest) =
    let later = insert_by_name f rest in
    if lex_lt (file_name g) (file_name f) then g ∷ later else f ∷ g ∷ rest

unfoldable pub in_order : List File → List File
unfolding insert_by_name
in_order [] = []
in_order (f ∷ rest) = insert_by_name f (in_order rest)

-- `version in done`
abbrev pub contains : String → List String → Bool
contains version done = exists (λ v. str_eq v version) done

module _ {S : Type 0} (server : Server S) where
  -- the statements of one file, until one fails
  unfoldable pub execute_all : List (List ℕ) → S → Result (Unit {0}) × S
  execute_all [] s = (ok tt, s)
  execute_all (stmt ∷ rest) s =
      let (r, s') = server.execute stmt s in
      elim r [ ok _ ↦ execute_all rest s' | err x ↦ (err x, s') ]

module _ ⦃e : Engine⦄ {S : Type 0} where
  -- `INSERT INTO schema_migrations`, whose key is the version
  unfoldable pub record_version : String → Store S → Result (Unit {0}) × Store S
  record_version version store =
      if exists (λ v. same v version) store.versions
      then (err (server_error dup_entry), store)
      else (ok tt, record store { versions = store.versions ++ version ∷ [] })

  abbrev pub recorded : String → Result (Unit {0}) × S → Store S → Result (Unit {0}) × Store S
  recorded version (ok _, s) store = record_version version (record store { state = s })
  recorded version (err x, s) store = (err x, record store { state = s })

  -- one pass of the loop for a pending file
  unfoldable pub apply : Server S → File → Store S → Result (Unit {0}) × Store S
  unfolding statements execute_all record_version
  apply server f store = recorded f.stem (execute_all server (statements f.text) store.state) store

  abbrev pub one_more : Result ℕ × Store S → Result ℕ × Store S
  one_more (ok n, store) = (ok (n + 1), store)
  one_more (err x, store) = (err x, store)

  -- after a pending file: the rest of the loop, and one more file counted
  abbrev pub go_on :
      Result (Unit {0}) × Store S → (Store S → Result ℕ × Store S) → Result ℕ × Store S
  go_on (ok _, store) rest = one_more (rest store)
  go_on (err x, store) rest = (err x, store)

  -- the loop of `run_migrations`, and the number of files that it applied
  unfoldable pub apply_pending : Server S → List String → List File → Store S → Result ℕ × Store S
  unfolding apply str_eq
  apply_pending server done [] store = (ok 0, store)
  apply_pending server done (f ∷ files) store = elim (contains f.stem done) [
    | true ↦ apply_pending server done files store
    | false ↦ go_on (apply server f store) (apply_pending server done files)
  ]

  unfoldable pub run_migrations : Server S → List File → Store S → Result ℕ × Store S
  unfolding apply_pending in_order
  run_migrations server files store = apply_pending server store.versions (in_order files) store

  unfoldable pub load_seeds : Server S → List ℕ → Store S → Result (Unit {0}) × Store S
  unfolding statements execute_all
  load_seeds server text store =
      let (r, s) = execute_all server (statements text) store.state in
      (r, record store { state = s })
