-- ===== src/Database/Statement/Effects.antt =====
-- What the statements leave behind: an UPDATE, an INSERT and a DELETE on any table.
use corebank_api.Prelude.{
  ap, some, Option, if◌then◌else◌, ℕ, String, ◌≡◌, ◌≢◌, refl, Bool, true, false, not, none, List,
  [], ◌∷◌, ◌++◌, arith, All,
}
use corebank_api.Errors.{err, Result, Exception, ok}
use corebank_api.Database.Engine.{Engine}
use corebank_api.Database.Schema.{Db}
use corebank_api.Database.Rows.{Outcome, failed, done, select, exists, count, replace, update_rows}
use corebank_api.Database.Rows.Replace.{tally, update_rows_done, update_rows_goes}
use corebank_api.Database.Statement.{
  ◌>>=◌, Stmt, value_or, Session, Table, store, counted, changed, has_key, execute_update,
  execute_insert, execute_delete,
}

changed_ne : {A : Type 0} (d : Dec A) → ¬ A → changed d ≡ 1
changed_ne (yes a) h = absurd (h a)
changed_ne (no n) h = refl

changed_eq : {A : Type 0} (d : Dec A) → A → changed d ≡ 0
changed_eq (yes a) h = refl
changed_eq (no n) h = absurd (n h)

-- Inversion of a step of a block that ended in a value.
pub bind_ok :
    {A B T : Type 0} (r : Result A) {k : A → Result B × T} (t : T) {s' : T} {b : B}
    → (elim r [ ok a ↦ k a | err x ↦ (err x, t) ]) ≡ (ok b, s')
    → (a : A) × (r ≡ ok a) × (k a ≡ (ok b, s'))
bind_ok (ok a) t h = (a, refl, h)
bind_ok (err x) t h = absurd (ground arith)

pub value_or_ok :
    {A : Type 0} (o : Option A) (x : Exception) {a : A} → value_or o x ≡ ok a → o ≡ some a
value_or_ok o x h = ground arith

pub guard_ok :
    (b : Bool) (x : Exception) {u : Unit {0}} → (if b then err x else ok tt) ≡ ok u → b ≡ false
guard_ok b x h = ground arith

-- What a block does after a statement whose outcome is known.
pub after_ok :
    {A B : Type 0} (m : Stmt A) (f : A → Stmt B) (s : Session) {a : A} {t : Session}
    → m s ≡ (ok a, t)
    → (m >>= f) s ≡ f a t
after_ok {A} {B} m f s h =
    let next : Result A × Session → Result B × Session =
      λ p. elim p.0 [ ok a ↦ f a p.1 | err x ↦ (err x, p.1) ] in
    ap next h

pub after_err :
    {A B : Type 0} (m : Stmt A) (f : A → Stmt B) (s : Session) {x : Exception} {t : Session}
    → m s ≡ (err x, t)
    → (m >>= f) s ≡ (err x, t)
after_err {A} {B} m f s h =
    let next : Result A × Session → Result B × Session =
      λ p. elim p.0 [ ok a ↦ f a p.1 | err x ↦ (err x, p.1) ] in
    ap next h

module _ ⦃e : Engine⦄ {R : Type 0} (t : Table R) where
  abbrev pub with_replaced : (R → Bool) → (R → R) → Session → Session
  with_replaced p f s = record s { db = t.with_rows s.db (replace p f (t.rows s.db)) }

  -- every row that the UPDATE matches passes the constraints
  abbrev pub Passes : (R → Bool) → (R → R) → Db → Type 0
  Passes p f db = All (λ x. p x ≡ true → t.violation db (f x) ≡ none) (t.rows db)

  store_ok :
      (o : Outcome R) {n : ℕ} (s : Session) {s' : Session}
      → store t o s ≡ (ok n, s')
      → (rows : List R) × (o ≡ done rows n) × (s' ≡ record s { db = t.with_rows s.db rows })
  store_ok (failed m) s h = absurd (ground arith)
  store_ok (done rows n) s h = (rows, ground arith, ground arith)

  -- An UPDATE that goes through has replaced the matched rows, and counts them.
  pub execute_update_ok :
      (p : R → Bool) (f : R → R) {n : ℕ} (s : Session) {s' : Session}
      → execute_update t p f s ≡ (ok n, s')
      → (n ≡ tally p f (t.violation s.db) (counted t) (t.rows s.db))
        × (s' ≡ with_replaced p f s)
        × Passes p f s.db
  unfolding execute_update
  execute_update_ok p f s h =
      let (rows, e, left) =
        store_ok (update_rows p f (t.violation s.db) (counted t) (t.rows s.db)) s h in
      let (same_rows, size, all) =
        update_rows_done p f (t.violation s.db) (counted t) (t.rows s.db) e in
      (size, cc, all)

  -- An UPDATE whose rows pass the constraints goes through.
  pub execute_update_goes :
      (p : R → Bool) (f : R → R) (s : Session)
      → Passes p f s.db
      → execute_update t p f s
        ≡ (ok (tally p f (t.violation s.db) (counted t) (t.rows s.db)), with_replaced p f s)
  unfolding execute_update
  execute_update_goes p f s h =
      rw (update_rows_goes p f (t.violation s.db) (counted t) (t.rows s.db) h)

  pub counted_changed : (old new : R) → old ≢ new → counted t old new ≡ 1
  unfolding counted
  counted_changed old new h = ground (arith, changed_ne (t.same_row old new) h)

  pub counted_same : (old new : R) → old ≡ new → e.found_rows ≡ false → counted t old new ≡ 0
  unfolding counted
  counted_same old new h b = rw b (changed_eq (t.same_row old new) h)

  -- An INSERT that goes through has appended a row with a new key that passes the constraints.
  pub execute_insert_ok :
      (row : R) {u : Unit {0}} (s : Session) {s' : Session}
      → execute_insert t row s ≡ (ok u, s')
      → (t.violation s.db row ≡ none)
        × (exists (has_key t (t.key row)) (t.rows s.db) ≡ false)
        × (s' ≡ record s { db = t.with_rows s.db (t.rows s.db ++ row ∷ []) })
  unfolding execute_insert
  execute_insert_ok row s h = (ground arith, ground arith, ground arith)

  -- An INSERT of a row with a new key that passes the constraints goes through.
  pub execute_insert_goes :
      (row : R) (s : Session)
      → t.violation s.db row ≡ none
      → exists (has_key t (t.key row)) (t.rows s.db) ≡ false
      → execute_insert t row s
        ≡ (ok tt, record s { db = t.with_rows s.db (t.rows s.db ++ row ∷ []) })
  unfolding execute_insert
  execute_insert_goes row s h new = ground arith

  -- A DELETE that goes through has removed the rows with the key, and no row referred to them.
  pub execute_delete_ok :
      (id : String) {n : ℕ} (s : Session) {s' : Session}
      → execute_delete t id s ≡ (ok n, s')
      → (exists (t.referenced s.db) (select (has_key t id) (t.rows s.db)) ≡ false)
        × (n ≡ count (has_key t id) (t.rows s.db))
        × (s' ≡ record s {
          db = t.on_delete id (t.with_rows s.db (select (λ r. not (has_key t id r)) (t.rows s.db)));
        })
  unfolding execute_delete
  execute_delete_ok id s h = (ground arith, ground arith, ground arith)
