-- ===== src/Services/Guarded.antt =====
-- The shape that the services share: a block of statements, its integrity errors translated, in a
-- unit of work. What such a block has stored or removed.
use corebank_api.Prelude.{◌∙◌, sym, [], ap, ◌∷◌, not, ◌++◌, none, some, arith, List, ◌≡◌, String}
use corebank_api.Database.Uow.{begin, unit_of_work, World, integrity_guard}
use corebank_api.Database.Engine.{same_refl, Engine}
use corebank_api.Database.Statement.{
  require_row, execute_delete, pure, ◌>>=◌, execute_insert, ◌>>◌, has_key, Session, Table, Stmt,
}
use corebank_api.Errors.{ok_eq, Exception, ok}
use corebank_api.Database.Schema.{Db}
use corebank_api.Database.Uow.Atomicity.{unit_of_work_ok}
use corebank_api.Database.Rows.{select, find}
use corebank_api.Database.Statement.Effects.{execute_delete_ok, execute_insert_ok, bind_ok}
use corebank_api.Database.Rows.Keys.{find-append_new, find-select-not}

pub integrity_guard_ok :
    {A : Type 0} (m : Stmt A) (s : Session) {a : A} {s' : Session}
    → integrity_guard m s ≡ (ok a, s')
    → m s ≡ (ok a, s')
unfolding integrity_guard
integrity_guard_ok m s h = ground arith

pub guarded_ok :
    {A : Type 0} (m : Stmt A) (w : World) {a : A}
    → (unit_of_work (integrity_guard m) w).0 ≡ ok a
    → (s : Session) × (m (begin w) ≡ (ok a, s))
      × ((unit_of_work (integrity_guard m) w).1 ≡ record w { committed = s.db })
guarded_ok m w h =
    let (s, e, left) = unit_of_work_ok (integrity_guard m) w h in
    (s, integrity_guard_ok m (begin w) e, left)

module _ ⦃e : Engine⦄ {R : Type 0} (t : Table R) where
  abbrev pub create_block : R → Stmt R
  create_block row = do execute_insert t row; pure row

  abbrev pub delete_block : String → Exception → Stmt (Unit {0})
  delete_block id x = do gone ← execute_delete t id; require_row gone x

  -- A row that was created is the row that is found by its key.
  pub created_found :
      (row : R) (w : World) {b : R}
      → ((db : Db) (rows : List R) → t.rows (t.with_rows db rows) ≡ rows)
      → (unit_of_work (integrity_guard (create_block row)) w).0 ≡ ok b
      → (b ≡ row)
        × (find
              (has_key t (t.key row))
              (t.rows (unit_of_work (integrity_guard (create_block row)) w).1.committed)
            ≡ some row)
  unfolding has_key
  created_found row w law h =
      let (s, body, left) = guarded_ok (create_block row) w h in
      let (u, inserted, rest) = bind_ok (execute_insert t row (begin w)).0 _ body in
      let (_, new, stored) =
        execute_insert_ok t row (begin w) (λ i. (inserted i, (execute_insert t row (begin w)).1)) in
      let after : s
          ≡ record (begin w) { db = t.with_rows w.committed (t.rows w.committed ++ row ∷ []) } =
        sym (ap (λ x. x.1) rest) ∙ stored in
      (
        ok_eq (sym (ap (λ x. x.0) rest)),
        ap (λ (v : World). find (has_key t (t.key row)) (t.rows v.committed)) left
            ∙ ap (λ (v : Session). find (has_key t (t.key row)) (t.rows v.db)) after
            ∙ ap (find (has_key t (t.key row))) (law w.committed (t.rows w.committed ++ row ∷ []))
            ∙ find-append_new (has_key t (t.key row)) row (t.rows w.committed) new
                (same_refl (t.key row)),
      )

  -- After a DELETE that removed a row no row with the key is left.
  pub deleted_gone :
      (id : String) (x : Exception) (w : World) {u : Unit {0}}
      → ((db : Db) (rows : List R) → t.rows (t.on_delete id (t.with_rows db rows)) ≡ rows)
      → (unit_of_work (integrity_guard (delete_block id x)) w).0 ≡ ok u
      → find
          (has_key t id)
          (t.rows (unit_of_work (integrity_guard (delete_block id x)) w).1.committed)
        ≡ none
  deleted_gone id x w law h =
      let (s, body, left) = guarded_ok (delete_block id x) w h in
      let (n, deleted, rest) = bind_ok (execute_delete t id (begin w)).0 _ body in
      let (_, _, removed) =
        execute_delete_ok t id (begin w) (λ i. (deleted i, (execute_delete t id (begin w)).1)) in
      let kept = select (λ r. not (has_key t id r)) (t.rows w.committed) in
      ap (λ (v : World). find (has_key t id) (t.rows v.committed)) left
      ∙ ap (λ (v : Session). find (has_key t id) (t.rows v.db)) (sym (ap (λ x. x.1) rest) ∙ removed)
      ∙ ap (find (has_key t id)) (law w.committed kept)
      ∙ find-select-not (has_key t id) (t.rows w.committed)
