-- ===== src/Database/Consistency/Keeps.antt =====
-- Statements and actions that keep the whole database consistent.
use corebank_api.Database.Consistency.Whole.{IsConsistent, Whole}
use corebank_api.Database.Consistency.Laws.{IsLawful-insert, IsLawful-delete, IsLawful-update}
use corebank_api.Database.Consistency.References.{Grows-append, Grows-replace}
use corebank_api.Database.Statement.{
  store, counted, Table, Session, Stmt, ◌>>=◌, execute_insert, execute_update, execute_delete,
  execute_assignments, has_key, assign,
}
use corebank_api.Database.Uow.{
  translate, begin, finish, close, World, get_connection, Action, unit_of_work, read_only,
  integrity_guard, act_bind, after, with_value, fail,
}
use corebank_api.Database.Engine.{dup_entry, server_error, same, Engine}
use corebank_api.Errors.{err, ok, Result, Exception}
use corebank_api.Prelude.{
  if◌then◌else◌, false, none, some, ℕ, Option, sym, subst, ◌++◌, inl, inr, Bool-cases, refl, ◌∙◌,
  [], true, ◌∷◌, ◌≡◌, List, Bool, String,
}
use corebank_api.Database.Rows.{replace, done, failed, select, update_rows, exists, Outcome}
use corebank_api.Database.Rows.Replace.{update_rows_done}

module _ ⦃e : Engine⦄ where
  -- `m` keeps the database consistent, whether it returns or raises.
  pub record Keeps {A : Type 0} (m : Stmt A) : Type 0 where
    pub at : (s : Session) → IsConsistent s.db → IsConsistent (m s).1.db

  -- So does an action of the committed database.
  pub record Serves {A : Type 0} (m : Action A) : Type 0 where
    pub at : (w : World) → IsConsistent w.committed → IsConsistent (m w).1.committed

  module _ {A : Type 0} where
    -- A statement that reads keeps it.
    pub Keeps-read : (f : Session → Result A) → Keeps (λ s. (f s, s))
    Keeps-read f = record { at = λ s h. h }

    pub Keeps-guard : (m : Stmt A) → Keeps m → Keeps (integrity_guard m)
    unfolding integrity_guard
    Keeps-guard m k = record { at = λ s h. go (m s) (k.at s h) }
      where
        go :
            (r : Result A × Session)
            → IsConsistent r.1.db
            → IsConsistent (
                let out : Result A × Session = elim r.0 [
                  | ok a ↦ (ok a, r.1)
                  | err x ↦ (err (translate x), r.1)
                ] in
                out.1.db)
        go (ok a, s) h = h
        go (err x, s) h = h

    pub Serves-fail : (x : Exception) → Serves (fail {A = A} x)
    Serves-fail x = record { at = λ w h. h }

    pub Serves-uow : (m : Stmt A) → Keeps m → Serves (unit_of_work m)
    unfolding unit_of_work get_connection close
    Serves-uow m k = record {
      at = λ w h. go w h (m (begin (get_connection w))) (k.at (begin (get_connection w)) h);
    }
      where
        go :
            (w : World)
            → IsConsistent w.committed
            → (r : Result A × Session) → IsConsistent r.1.db
            → IsConsistent (finish (get_connection w) r).1.committed
        go w c (ok a, s) h = h
        go w c (err x, s) h = c

    pub Serves-read : (m : Stmt A) → Serves (read_only m)
    unfolding read_only get_connection close
    Serves-read m = record { at = λ w h. h }

  module _ {A B : Type 0} where
    pub Keeps-bind :
        (m : Stmt A) (f : A → Stmt B) → Keeps m → ((a : A) → Keeps (f a)) → Keeps (m >>= f)
    Keeps-bind m f km kf = record { at = λ s h. go (m s) (km.at s h) }
      where
        go :
            (r : Result A × Session)
            → IsConsistent r.1.db
            → IsConsistent (
                let out : Result B × Session = elim r.0 [ ok a ↦ f a r.1 | err x ↦ (err x, r.1) ] in
                out.1.db)
        go (ok a, s) h = (kf a).at s h
        go (err x, s) h = h

    pub Serves-bind :
        (m : Action A) (f : A → Action B)
        → Serves m
        → ((a : A) → Serves (f a))
        → Serves (act_bind m f)
    Serves-bind m f km kf = record { at = λ w h. go (m w) (km.at w h) }
      where
        go :
            (r : Result A × World)
            → IsConsistent r.1.committed
            → IsConsistent (
                let out : Result B × World = elim r.0 [ ok a ↦ f a r.1 | err x ↦ (err x, r.1) ] in
                out.1.committed)
        go (ok a, w) h = (kf a).at w h
        go (err x, w) h = h

    pub Serves-after : (m : Action A) (f : A → Result B) → Serves m → Serves (after m f)
    Serves-after m f k = record { at = k.at }

    pub Serves-value :
        (r : Result A) (f : A → Action B) → ((a : A) → Serves (f a)) → Serves (with_value r f)
    Serves-value (ok a) f k = k a
    Serves-value (err x) f k = Serves-fail x

  module _ {A : Type 0} where
    pub Keeps-if : (b : Bool) (m n : Stmt A) → Keeps m → Keeps n → Keeps (if b then m else n)
    Keeps-if true m n km kn = km
    Keeps-if false m n km kn = kn

    pub Serves-if : (b : Bool) (m n : Action A) → Serves m → Serves n → Serves (if b then m else n)
    Serves-if true m n km kn = km
    Serves-if false m n km kn = kn

  module _ {R : Type 0} (t : Table R) (whole : Whole t) where
    -- `execute_insert`, by the first violated constraint and whether the key is in use
    abbrev inserted : R → Session → Option ℕ → Bool → Result (Unit {0}) × Session
    inserted row s v b = elim v [
      | some n ↦ (err (server_error n), s)
      | none ↦
          if b
          then (err (server_error dup_entry), s)
          else (ok tt, record s { db = t.with_rows s.db (t.rows s.db ++ row ∷ []) })
    ]

    pub Keeps-insert : (row : R) → Keeps (execute_insert t row)
    unfolding execute_insert
    Keeps-insert row = record {
      at = λ s h.
          go s h (t.violation s.db row) refl (exists (has_key t (t.key row)) (t.rows s.db)) refl;
    }
      where
        go :
            (s : Session)
            → IsConsistent s.db
            → (v : Option ℕ) → t.violation s.db row ≡ v
            → (b : Bool) → exists (has_key t (t.key row)) (t.rows s.db) ≡ b
            → IsConsistent (inserted row s v b).1.db
        go s h (some n) bad b e = h
        go s h none pass true old = h
        go s h none pass false new =
            whole.grow s.db (t.rows s.db ++ row ∷ []) h
              (IsLawful-insert t whole.own s.db row (whole.part s.db h) pass new)
              (Grows-append t.key (t.rows s.db) row)

    pub Keeps-update :
        (p : R → Bool) (f : R → R) (id : String)
        → ((r : R) → t.key (f r) ≡ t.key r)
        → ((r : R) → p r ≡ true → same (t.key r) id ≡ true)
        → Keeps (execute_update t p f)
    unfolding execute_update
    Keeps-update p f id stable one = record {
      at = λ s h. go s h (update_rows p f (t.violation s.db) (counted t) (t.rows s.db)) refl;
    }
      where
        go :
            (s : Session)
            → IsConsistent s.db
            → (o : Outcome R) → update_rows p f (t.violation s.db) (counted t) (t.rows s.db) ≡ o
            → IsConsistent (store t o s).1.db
        go s h (failed n) e = h
        go s h (done rows n) e =
            let (same_rows, _, passed) =
              update_rows_done p f (t.violation s.db) (counted t) (t.rows s.db) e in
            subst (λ l. IsConsistent (t.with_rows s.db l)) (sym same_rows)
              (whole.grow s.db (replace p f (t.rows s.db)) h
                (IsLawful-update t whole.own s.db p f id (whole.part s.db h) stable one passed)
                (Grows-replace t.key p f (t.rows s.db) stable))

    pub Keeps-delete : (id : String) → Keeps (execute_delete t id)
    unfolding execute_delete
    Keeps-delete id = record {
      at = λ s h.
          elim (Bool-cases (exists (t.referenced s.db) (select (has_key t id) (t.rows s.db)))) [
            | inl used ↦ rw used h
            | inr free ↦ rw free (
                whole.drop s.db id h (IsLawful-delete t whole.own s.db id (whole.part s.db h)) free)
          ];
    }

    assign_stable :
        {C : Type 0} (set : C → R → R) (fields : List C) (r : R)
        → ((c : C) (x : R) → t.key (set c x) ≡ t.key x)
        → t.key (assign set fields r) ≡ t.key r
    assign_stable set [] r stable = refl
    assign_stable set (c ∷ cs) r stable = assign_stable set cs (set c r) stable ∙ stable c r

    pub Keeps-assignments :
        {C : Type 0} (set : C → R → R) (id : String) (fields : List C)
        → ((c : C) (x : R) → t.key (set c x) ≡ t.key x)
        → Keeps (execute_assignments t set id fields)
    unfolding execute_assignments has_key
    Keeps-assignments set id [] stable = record { at = λ s h. h }
    Keeps-assignments set id (c ∷ cs) stable =
        Keeps-update (has_key t id) (assign set (c ∷ cs)) id
          (λ r. assign_stable set (c ∷ cs) r stable) (λ r h. h)
