-- ===== src/Database/Uow/Atomicity.antt =====
-- A unit of work is all or nothing, and returns its connection on every path.
use corebank_api.Prelude.{◌+◌, ◌-◌, ◌≡◌, refl, arith}
use corebank_api.Errors.{Exception, Result, ok, err}
use corebank_api.Database.Schema.{Db}
use corebank_api.Database.Uow.{
  and_then, read_only, finish, begin, get_connection, World, close, unit_of_work,
}
use corebank_api.Database.Statement.{Stmt, Session}

restored : (w : World) → close (get_connection w) ≡ w
unfolding close get_connection
restored w =
    let e : w.borrowed + 1 - 1 ≡ w.borrowed = omega arith in λ i. record w { borrowed = e i }

-- How a block that runs in a transaction ends: its value and its writes, or its exception and the
-- database as it was before; either way no connection is lent out that was not before.
abbrev pub Ends : {A : Type 0} → World → Result A × Session → Result A × World → Type 0
Ends w (ok a, s) after = after ≡ (ok a, record w { committed = s.db })
Ends w (err x, s) after = after ≡ (err x, w)

finish-Ends :
    {A : Type 0} (w : World) (r : Result A × Session) → Ends w r (finish (get_connection w) r)
unfolding get_connection close
finish-Ends w (ok a, s) = λ i. (ok a, record (restored w i) { committed = s.db })
finish-Ends w (err x, s) = λ i. (err x, restored w i)

finish_keeps :
    {A : Type 0} (P : Db → Type 0) (w : World) (r : Result A × Session)
    → P w.committed
    → ((a : A) (s : Session) → r ≡ (ok a, s) → P s.db)
    → P (finish (get_connection w) r).1.committed
unfolding get_connection close
finish_keeps P w (ok a, s) before after = after a s refl
finish_keeps P w (err x, s) before after = before

finish_ok :
    {A : Type 0} (w : World) (r : Result A × Session) {a : A}
    → (finish (get_connection w) r).0 ≡ ok a
    → (s : Session) × (r ≡ (ok a, s))
      × ((finish (get_connection w) r).1 ≡ record w { committed = s.db })
unfolding get_connection close
finish_ok w (ok b, s) h = (s, λ i. (h i, s), λ i. record (restored w i) { committed = s.db })
finish_ok w (err x, s) h = absurd (ground arith)

-- A unit of work commits everything that its block wrote if the block returns, and nothing if it
-- raises, at whatever statement; the connection goes back to the pool in both cases.
pub unit_of_work_atomic :
    {A : Type 0} (body : Stmt A) (w : World) → Ends w (body (begin w)) (unit_of_work body w)
unfolding unit_of_work
unit_of_work_atomic body w = finish-Ends w (body (begin w))

-- What holds before a unit of work, and after its block if that returns, holds after it.
pub unit_of_work_keeps :
    {A : Type 0} (P : Db → Type 0) (body : Stmt A) (w : World)
    → P w.committed
    → ((a : A) (s : Session) → body (begin w) ≡ (ok a, s) → P s.db)
    → P (unit_of_work body w).1.committed
unfolding unit_of_work
unit_of_work_keeps P body w before after = finish_keeps P w (body (begin w)) before after

pub unit_of_work_ok :
    {A : Type 0} (body : Stmt A) (w : World) {a : A}
    → (unit_of_work body w).0 ≡ ok a
    → (s : Session) × (body (begin w) ≡ (ok a, s))
      × ((unit_of_work body w).1 ≡ record w { committed = s.db })
unfolding unit_of_work
unit_of_work_ok body w h = finish_ok w (body (begin w)) h

finish_err :
    {A : Type 0} (w : World) (r : Result A × Session) {x : Exception}
    → r.0 ≡ err x
    → finish (get_connection w) r ≡ (err x, w)
unfolding get_connection close
finish_err w (ok a, s) h = absurd (ground arith)
finish_err w (err y, s) h = λ i. (h i, restored w i)

pub unit_of_work_err :
    {A : Type 0} (body : Stmt A) (w : World) {x : Exception}
    → (body (begin w)).0 ≡ err x
    → unit_of_work body w ≡ (err x, w)
unfolding unit_of_work
unit_of_work_err body w h = finish_err w (body (begin w)) h

-- A read-only block gives its value or its exception, and leaves the world as it was.
pub read_only_lem :
    {A : Type 0} (body : Stmt A) (w : World) → read_only body w ≡ ((body (begin w)).0, w)
unfolding read_only get_connection close
read_only_lem body w = λ i. ((body (begin w)).0, restored w i)

pub and_then_ok :
    {A B : Type 0} (r : Result A) {f : A → Result B} {b : B}
    → and_then r f ≡ ok b
    → (a : A) × (r ≡ ok a) × (f a ≡ ok b)
and_then_ok (ok a) h = (a, refl, h)
and_then_ok (err x) h = absurd (ground arith)
