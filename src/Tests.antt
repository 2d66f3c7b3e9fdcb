-- ===== src/Tests.antt =====
-- A small bank, runs of the services on it, and the theorems at inputs that meet their hypotheses.
mod Bank
mod Transfers
mod Startup
mod Processes
mod Requests
mod Consistency
mod Bodies
use corebank_api.Repositories.Accounts
use corebank_api.Repositories.Transactions
use corebank_api.Repositories.Branches
use corebank_api.Services.Transaction
use corebank_api.Services.Transaction.Spec.{ledger_row}
use corebank_api.Services.Transaction.Effect.{Transferred, transfer_effect}
use corebank_api.Services.Account
use corebank_api.Services.Branch
use corebank_api.Services.Support
use corebank_api.Services.Auth
use corebank_api.Prelude.{
  ◌≤◌, neg_part, pos_part, arith, ◌⊎◌, ◌++◌, ◌^◌, true, ◌↔◌, ◌<◌, ◌-ℤ◌, ◌+ℤ◌, str_lt, str_eq, ◌||◌,
  [], negsuc, ◌==◌, pos, if◌then◌else◌, ◌∷◌, some, refl, none, false, String, ◌≡◌, ℕ,
}
use corebank_api.Database.Schema.{
  resolved, checking, open_status, Account, Customer, user, SupportTicket, Branch, User, Db,
}
use corebank_api.Money.{precision, quantize, Decimal}
use corebank_api.Database.Engine.{out_of_range, check_violated, same, Engine, IsPyMysql}
use corebank_api.Database.Uow.{begin, integrity_guard, read_only, unit_of_work, World}
use corebank_api.Repositories.Accounts.Money.{is_account, total_balance, IsSound}
use corebank_api.Database.Tables.{branches_table, accounts_table, transactions_table}
use corebank_api.Services.Helpers.{ensure_owner_or_admin, owns, is_admin, Actor}
use corebank_api.Errors.{
  not_found, db_error, app, err, operational_error, programming_error, data_error, integrity_error,
  ok, ErrorClass,
}
use corebank_api.Database.Statement.{execute_delete, execute_insert, execute_update}
use corebank_api.Database.Uow.Atomicity.{unit_of_work_atomic, Ends}
use corebank_api.Services.Auth.{invalid_credentials, Hasher}
use corebank_api.Services.Support.Resolution.{set_status-AllStamped, AllStamped}
use corebank_api.Database.Rows.{find, select}
use corebank_api.Services.Branch.RoundTrip.{get-create}
use corebank_api.Services.Account.Access.{get_own, ensure_owner_or_admin_iff, list_visible, listed}
use corebank_api.Services.Transaction.Conservation.{transfer_conserves}
use corebank_api.Services.Transaction.LockOrder.{lock_order}
use corebank_api.Api.Router.{handle, accounts_delete, accounts_put_balance}
use corebank_api.Api.Router.Access.{handle-refused, handle_forbidden, is_open}
use corebank_api.Security.{refused, verified, expired, failure, jwt_message}
use corebank_api.Services.Transaction.Success.{transfer_succeeds}
use corebank_api.Money.Rounding.{Near, quantize-Near}
use corebank_api.Services.Account.SetBalance.{set_balance_same, set_balance_negative}
use corebank_api.Services.Auth.Login.{authenticate_ends}
use corebank_api.Tests.Bank.{
  mysql_class, mysql, mysql-IsPyMysql, bank-IsSound, customer, branch, account, ticket, alice, bank,
  world, owner, twenty,
}

-- What a run of the services unfolds.
runs : Unit {0}
unfolding Transaction.transfer Transaction.transfer_cents Transaction.transfer_body
    Transaction.lock_both Transaction.move_money Transaction.sorted_pair Transaction.transfer_row
    Accounts.lock Accounts.debit Accounts.credit Accounts.get Transactions.insert transactions_table
    accounts_table branches_table execute_update execute_insert execute_delete quantize unit_of_work
    read_only integrity_guard is_admin owns ensure_owner_or_admin same str_eq str_lt ◌+ℤ◌ ◌-ℤ◌
runs = tt

transfer_test :
    (Transaction.transfer owner "a1" "a2" twenty "x1" 7 world).0
    ≡ ok (ledger_row "a1" "a2" (pos 2000) "x1" 7)
unfolding runs
transfer_test = refl

transfer_conserves_example :
    (total_balance (Transaction.transfer owner "a1" "a2" twenty "x1" 7 world).1.committed
      ≡ total_balance bank)
    × IsSound (Transaction.transfer owner "a1" "a2" twenty "x1" 7 world).1.committed
transfer_conserves_example = transfer_conserves owner "a1" "a2" twenty "x1" 7 world bank-IsSound

different : same "a1" "a2" ≡ false
unfolding runs
different = refl

transfer_effect_example :
    Transferred owner "a1" "a2" twenty "x1" 7 world
      (ledger_row "a1" "a2" (pos 2000) "x1" 7)
      (Transaction.transfer owner "a1" "a2" twenty "x1" 7 world).1
transfer_effect_example =
    transfer_effect owner "a1" "a2" twenty "x1" 7 world (ledger_row "a1" "a2" (pos 2000) "x1" 7)
      bank-IsSound transfer_test different

unit_of_work_atomic_example :
    Ends world
      (Transaction.transfer_body owner "a1" "a2" (pos 2000) "x1" 7 (begin world))
      (unit_of_work (Transaction.transfer_body owner "a1" "a2" (pos 2000) "x1" 7) world)
unit_of_work_atomic_example =
    unit_of_work_atomic (Transaction.transfer_body owner "a1" "a2" (pos 2000) "x1" 7) world

lock_order_example :
    (first second : String) × (str_lt second first ≡ false)
    × ((Transaction.lock_both "a2" "a1" (begin world)).1
        ≡ record (begin world) { locks = ([] ++ first ∷ []) ++ second ∷ [] })
    × ((Transaction.lock_both "a1" "a2" (begin world)).1
        ≡ record (begin world) { locks = ([] ++ first ∷ []) ++ second ∷ [] })
    × ((Transaction.lock_both "a2" "a1" (begin world)).0
        ≡ ok (find (is_account "a2") bank.accounts, find (is_account "a1") bank.accounts))
lock_order_example = lock_order "a2" "a1" (begin world)

get_test : (Account.get "a1" owner world).0 ≡ ok (account "a1" "c1" 10000)
unfolding runs Account.get
get_test = refl

get_own_example :
    (find (is_account "a1") bank.accounts ≡ some (account "a1" "c1" 10000))
    × ((is_admin owner ≡ true) ⊎ (owner.customer_id ≡ some "c1"))
get_own_example = get_own "a1" owner world (account "a1" "c1" 10000) get_test

list_visible_example :
    Account.list_for_actor owner world
    ≡ (ok (select (λ a. is_admin owner || listed (some "c1") a) bank.accounts), world)
list_visible_example = list_visible owner world

ensure_owner_or_admin_iff_example : (ensure_owner_or_admin owner (some "c1") ≡ ok tt) ↔ (
    (is_admin owner ≡ true)
    ⊎ ((id : String) × (some "c1" ≡ some id)
        × (owner.customer_id ≡ some id)
        × (str_eq id "" ≡ false)))
ensure_owner_or_admin_iff_example = ensure_owner_or_admin_iff owner (some "c1")

first_account : find (is_account "a1") bank.accounts ≡ some (account "a1" "c1" 10000)
unfolding runs
first_account = refl

set_balance_negative_example :
    ((5 < 10 ^ 15)
      × (Account.set_balance_cents "a1" (negsuc 4) world
          ≡ (err (db_error operational_error check_violated), world)))
    ⊎ ((10 ^ 15 ≤ 5)
        × (Account.set_balance_cents "a1" (negsuc 4) world
            ≡ (err (db_error data_error out_of_range), world)))
set_balance_negative_example =
    set_balance_negative "a1" (negsuc 4) world mysql-IsPyMysql first_account (omega arith)

set_balance_same_example :
    Account.set_balance_cents "a1" (pos 10000) world
    ≡ (err (app not_found "Account not found"), world)
set_balance_same_example = set_balance_same "a1" world mysql-IsPyMysql bank-IsSound first_account

set_status-AllStamped_example : AllStamped (Support.set_status "t1" resolved 9 world).1.committed
set_status-AllStamped_example = set_status-AllStamped "t1" resolved 9 world (refl, tt)

abbrev second_branch : Branch.NewBranch
second_branch = record {
  branch_name = "West";
  address_line1 = "2 High St";
  address_line2 = none;
  city = "London";
  zip_code = "W2";
  phone_number = "021";
}

create_test : (Branch.create second_branch "b2" world).0 ≡ ok (Branch.new_record second_branch "b2")
unfolding runs Branch.create Branches.insert Branch.new_record
create_test = refl

get-create_example :
    (Branch.get "b2" (Branch.create second_branch "b2" world).1).0
    ≡ ok (Branch.new_record second_branch "b2")
get-create_example =
    get-create second_branch "b2" world (Branch.new_record second_branch "b2") create_test

abbrev empty_bank : World
empty_bank = record world { committed = record bank { accounts = [] } }

delete_test : (Branch.delete "b1" empty_bank).0 ≡ ok tt
unfolding runs Branch.delete Branches.delete
delete_test = refl

abbrev plain_hasher : Hasher
plain_hasher = record {
  generate_password_hash = λ salt s. s;
  check_password_hash = λ h s. str_eq h s;
}

authenticate_ends_example :
    ((Auth.authenticate plain_hasher "alice" "hash:alice123" world).1 ≡ world)
    × (((u : User) × (find (λ v. same v.username "alice") bank.users ≡ some u)
          × (str_eq u.password "hash:alice123" ≡ true)
          × ((Auth.authenticate plain_hasher "alice" "hash:alice123" world).0
              ≡ ok (record { user_id = u.user_id; role = u.role; customer_id = u.customer_id })))
        ⊎ (((Auth.authenticate plain_hasher "alice" "hash:alice123" world).0
              ≡ err invalid_credentials)
            × ((u : User)
                → find (λ v. same v.username "alice") bank.users ≡ some u
                → str_eq u.password "hash:alice123" ≡ false)))
authenticate_ends_example = authenticate_ends plain_hasher "alice" "hash:alice123" world

quantize_test : quantize twenty ≡ ok (pos 2000)
unfolding runs
quantize_test = refl

quantize-Near_example :
    Near 2000 (negsuc 1) 2000
    × (2000 < 10 ^ precision)
    × (false ≡ true → pos_part (pos 2000) ≡ 0)
    × (false ≡ false → neg_part (pos 2000) ≡ 0)
quantize-Near_example = quantize-Near twenty (pos 2000) quantize_test

handle-refused_example :
    handle (accounts_delete "a1") (refused expired) world
    ≡ (failure 401 (jwt_message expired), world)
handle-refused_example = handle-refused (accounts_delete "a1") expired world

owner_plain : is_admin owner ≡ false
unfolding runs
owner_plain = refl

put_balance_closed : is_open (accounts_put_balance "a1" twenty) ≡ false
unfolding is_open
put_balance_closed = refl

handle_forbidden_example :
    handle (accounts_put_balance "a1" twenty) (verified owner) world
    ≡ (failure 403 "Administrator access required", world)
handle_forbidden_example =
    handle_forbidden (accounts_put_balance "a1" twenty) owner world owner_plain put_balance_closed

second_account : find (is_account "a2") bank.accounts ≡ some (account "a2" "c2" 500)
unfolding runs
second_account = refl

owner_allowed : (is_admin owner || owns owner (some "c1")) ≡ true
unfolding runs
owner_allowed = refl

new_balance_fits : pos_part (pos 500 +ℤ pos 2000) < 10 ^ 15
unfolding runs
new_balance_fits = omega arith

transfer_succeeds_example :
    (Transaction.transfer owner "a1" "a2" twenty "x1" 7 world).0
    ≡ ok (ledger_row "a1" "a2" (pos 2000) "x1" 7)
transfer_succeeds_example =
    transfer_succeeds owner "a1" "a2" twenty (pos 2000) "x1" 7 world bank-IsSound quantize_test
      (omega arith) different first_account second_account owner_allowed (omega arith)
      new_balance_fits refl
