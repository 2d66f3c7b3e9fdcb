-- ===== src/Services/User/RoundTrip.antt =====
-- A user that app/services/user_service.py creates logs in by app/services/auth_service.py.
use corebank_api.Repositories.Users
use corebank_api.Services.User.{create, new_record}
use corebank_api.Services.Auth.{Hasher, authenticate, check_credentials}
use corebank_api.Services.Guarded.{guarded_ok}
use corebank_api.Database.Tables.{users_table}
use corebank_api.Database.Engine.{same_refl, same, Engine}
use corebank_api.Database.Schema.{Role, User, Db}
use corebank_api.Prelude.{
  ◌∙◌, ap, sym, ◌++◌, true, refl, [], ◌∷◌, some, ◌&&◌, not, arith, false, none, ◌≡◌, Option, List,
  String,
}
use corebank_api.Database.Rows.{find, exists}
use corebank_api.Database.Uow.{read_only, begin, World}
use corebank_api.Errors.{ok_eq, ok}
use corebank_api.Database.Statement.{Session, has_key, pure, ◌>>◌, execute_insert, Stmt}
use corebank_api.Database.Statement.Effects.{execute_insert_ok, bind_ok}
use corebank_api.Database.Rows.Keys.{find-append_new}

module _ ⦃e : Engine⦄ where
  -- no row has the name, if none has the id and no other has the name
  name_free :
      (id name : String) (rows : List User)
      → exists (λ (u : User). same u.user_id id) rows ≡ false
      → exists (λ (u : User). not (same u.user_id id) && same u.username name) rows ≡ false
      → exists (λ (u : User). same u.username name) rows ≡ false
  name_free id name [] h k = refl
  name_free id name (u ∷ rows) h k = ground (arith, name_free id name rows)

  new_name :
      (db : Db) (row : User)
      → users_table.violation db row ≡ none
      → exists (λ (u : User). same u.user_id row.user_id) db.users ≡ false
      → exists (λ (u : User). same u.username row.username) db.users ≡ false
  unfolding users_table
  new_name db row lawful fresh = name_free row.user_id row.username db.users fresh (ground arith)

  stored_found :
      (db : Db) (row : User)
      → users_table.violation db row ≡ none
      → exists (has_key users_table (users_table.key row)) (users_table.rows db) ≡ false
      → find
          (λ (v : User). same v.username row.username)
          (users_table.with_rows db (users_table.rows db ++ row ∷ [])).users
        ≡ some row
  unfolding users_table has_key
  stored_found db row lawful new =
      find-append_new (λ (v : User). same v.username row.username) row db.users
        (new_name db row lawful new) (same_refl row.username)

  -- If `create` returns, no user had that name or id, the new row holds the hash in place of the
  -- password, and it is the row that a login with that name reads.
  created_user :
      (hasher : Hasher) (name password : String) (role : Role) (customer_id : Option String)
      (id salt : String) (w : World) {u : Users.PublicUser}
      → (create hasher name password role customer_id id salt w).0 ≡ ok u
      → (u ≡ Users.public (new_record hasher name password role customer_id id salt))
        × (find
              (λ (v : User). same v.username name)
              (create hasher name password role customer_id id salt w).1.committed.users
            ≡ some (new_record hasher name password role customer_id id salt))
  unfolding create Users.insert new_record
  created_user hasher name password role customer_id id salt w {u} h =
      let row = new_record hasher name password role customer_id id salt in
      let block : Stmt Users.PublicUser =
        execute_insert users_table row >> pure (Users.public row) in
      let (s, body, left) = guarded_ok block w h in
      let (v, inserted, rest) = bind_ok (execute_insert users_table row (begin w)).0 _ body in
      let (lawful, new, stored) =
        execute_insert_ok users_table row (begin w)
          (λ i. (inserted i, (execute_insert users_table row (begin w)).1)) in
      (
        ok_eq (sym (ap (λ x. x.0) rest)),
        ap (λ (x : World). find (λ (v : User). same v.username name) x.committed.users) left
            ∙ ap (λ (x : Session). find (λ (v : User). same v.username name) x.db.users)
                (sym (ap (λ x. x.1) rest) ∙ stored)
            ∙ stored_found w.committed row lawful new,
      )

  -- A user that `create` returned logs in with the name and password that were given, as the principal
  -- with the id, role and customer id of the answer, provided that the library accepts a password
  -- for its own hash.
  pub authenticate-create :
      (hasher : Hasher) (name password : String) (role : Role) (customer_id : Option String)
      (id salt : String) (w : World) (u : Users.PublicUser)
      → hasher.check_password_hash (hasher.generate_password_hash salt password) password ≡ true
      → (create hasher name password role customer_id id salt w).0 ≡ ok u
      → (authenticate hasher name password
          (create hasher name password role customer_id id salt w).1).0
        ≡ ok (record { user_id = u.user_id; role = u.role; customer_id = u.customer_id })
  unfolding Users.public new_record authenticate Users.get_by_username check_credentials read_only
      users_table
  authenticate-create hasher name password role customer_id id salt w u accepts h =
      let (same_user, found) = created_user hasher name password role customer_id id salt w h in
      rw (found, accepts)
        (λ i. ok (record {
          user_id = (sym same_user i).user_id;
          role = (sym same_user i).role;
          customer_id = (sym same_user i).customer_id;
        }))
