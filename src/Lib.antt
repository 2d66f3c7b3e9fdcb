-- ===== src/Lib.antt =====
-- corebank-api: the service layer of a bank's REST API over MySQL.
--
-- The program. A request's view (app/api) calls one function of a service (app/services), which
-- opens a unit of work or a read-only block (app/db/uow.py) and runs statements of the repositories
-- (app/repositories) on its connection. A service raises the exceptions of
-- app/services/exceptions.py. The server keeps the tables and constraints of
-- migrations/001_initial_schema.sql.
--
-- The files.
--   Prelude         shared names, Boolean tests, list lemmas, integers over the native ℕ
--   Errors          app/services/exceptions.py; `Result`, a value or the exception raised
--   Money           Python's `decimal`, as far as `quantize(Decimal("0.01"))`; Money/Rounding its laws
--   Database        Engine: the server's and driver's behaviour, a parameter. Schema, Constraints,
--                   RowEquality, Tables: the migration. Rows: lists of rows under a statement.
--                   Statement: app/repositories/_base.py. Uow: app/db/uow.py and `integrity_guard`
--                   of app/services/_helpers.py. Pool: app/db/pool.py. Consistency: what it is
--                   for every table to be lawful, and what statements leave so
--   Repositories    a module for each file of app/repositories, a function for each of its functions
--   Services        a module for each file of app/services, a function for each of its functions;
--                   Helpers: the ownership check of app/services/_helpers.py. Their child modules
--                   hold proofs, and so do Guarded, on what a guarded unit of work leaves, and
--                   Consistency, on what every service leaves of the constraints.
--                   Transaction/Spec: what the transfers promise, without tables and statements.
--                   Transaction/Locking: transfers at the same time, as far as row locks go
--   Security        app/security/auth.py: the gates of a view; the envelopes of app/api/errors.py
--   Api             a module for each blueprint of app/api, a function for each view; Router: the
--                   dispatch of app/api/__init__.py, and who may make which request
--                   Auth and Health: the login and the probes, outside the dispatch.
--                   Schemas: the marshmallow schemas of each blueprint as data, the dicts that
--                   `create` of a service makes of a body, and the columns of an UPDATE
--   PyText          Python's `str` methods on code points
--   Config, App     app/config.py and app/__init__.py: the settings, and whether production starts
--   Scripts         Migrate: scripts/migrate.py. ConcurrencyDemo: the naive transfer of
--                   scripts/concurrency_demo.py
--   Tests           a concrete server and bank, runs, and the theorems at concrete inputs
--
-- State. A database `Db` is a list of rows for each table. A statement (`Stmt`) takes a connection's
-- view of it, with the row locks taken, to a result and a new view, also when it raises. An
-- operation of a service (`Action`) takes a `World`, the committed database and the number of
-- connections lent out, to a result and a new world. A sum of money is a number of cents in ℤ, a
-- date or a time a number. Where the source draws a random id, a salt or the time, the operation
-- has it as an argument. An id may be any text. There is no fuel: all recursion is on lists.
--
-- Parameters. `Engine` stands for MySQL and PyMySQL: whether an UPDATE counts the rows it found or
-- only those it changed, the collation by which texts are equal, and the class that an error number
-- is raised as. `IsPyMysql` names the documented choices, for the theorems that need them. `Hasher`
-- stands for werkzeug.security, `JwtManager` for flask_jwt_extended, `Python` for `str.lower` and
-- `int`, and `Server` for what a statement of a migration does. `Loader` stands for marshmallow and
-- webargs, what a body is loaded to, and `IsMarshmallow` names its documented behaviour.
--
-- Interleavings. Each unit of work runs alone between its begin and its end. Three things run
-- interleaved, each as steps of numbered threads: the row locks of transfers (the server grants a
-- lock on a row that no other transaction holds; locks on gaps and time-outs are left out), the
-- creation of the pool on first use, and the naive transfer, whose statements commit one by one.
--
-- Not modelled: the signing and parsing of tokens; the rendering of bodies (the data of a view are
-- typed, as a schema lets them pass, so enum columns are enumerations); logging; the wiring of the
-- application; resets of the pool by the tests; the creation of the database and of the table of
-- versions before a migration, and the command line; the random load, the counters and the output
-- of the concurrency demonstration; failures of the connection, and the lengths of texts. The
-- foreign keys are checked on INSERT and DELETE and again on every row an UPDATE writes. Of several
-- violated constraints of one row the model reports the first in a fixed order. NaN and infinite
-- amounts are not modelled. The minimum of the high-value report is a number of cents, where the
-- view hands on any text of the path.
pub mod Prelude
pub mod PyText
pub mod Errors
pub mod Database
pub mod Money
pub mod Repositories
pub mod Services
pub mod Security
pub mod Api
pub mod Scripts
pub mod Config
pub mod App
mod Tests
