-- ===== src/Tests/Processes.antt =====
-- Logins, probes, threads on the pool and the naive transfer, at inputs that meet the hypotheses of
-- their theorems.
use corebank_api.Api.Auth.{Claims, JwtManager, Token, credentials_of, decoded, login, me}
use corebank_api.Api.Auth.Session.{login-me, IsFaithful, wrong_login, actor_of}
use corebank_api.Database.Pool.{
  Process, initial, returned, building, first_test, look, start, later, moved, after_first,
}
use corebank_api.Database.Pool.Once.{one_pool}
use corebank_api.Scripts.ConcurrencyDemo.{
  Call, Storm, storm, reading, debiting, rejected, debit_failed, naive_transfer,
}
use corebank_api.Scripts.ConcurrencyDemo.Naive.{naive_owes, in_flight}
use corebank_api.Scripts.ConcurrencyDemo.Overdraft.{overdraft_ends}
use corebank_api.Services.Transaction.Spec.{TransferRequest, bank_of, serve}
use corebank_api.Tests.Bank.{plain_hasher, mysql, bank, world, owner, alice, account, bank-IsSound}
use corebank_api.Prelude.{
  String, ◌⊎◌, refl, ◌+ℤ◌, inl, subst, true, ◌-ℤ◌, arith, [], negsuc, Option, pos, ◌<◌, ℕ, ◌∷◌, All,
  false, ◌≡◌, none, str_eq, some, ◌≤◌,
}
use corebank_api.Errors.{err, operational_error, db_error}
use corebank_api.Database.Schema.{User, user}
use corebank_api.Security.{success}
use corebank_api.Repositories.Accounts.Money.{is_account, total_balance, IsSound}
use corebank_api.Database.Tables.{accounts_table}
use corebank_api.Database.Engine.{server_error, same}
use corebank_api.Database.Statement.{execute_update}
use corebank_api.Database.Rows.{exists, find}
use corebank_api.Money.{quantize}
use corebank_api.Services.Helpers.{owns, is_admin}
use corebank_api.Database.Uow.{World}
use corebank_api.Services.Transaction.{insufficient_funds}

-- A library that signs one token.
abbrev alice_claims : Claims
alice_claims = record { role = some user; customer_id = some "c1" }

abbrev signer : JwtManager
signer = record {
  create_access_token = λ identity claims. "token";
  verify_jwt_in_request = λ token. decoded "u1" alice_claims;
}

only_alice :
    (u : User)
    → find (λ (v : User). same v.username "alice") bank.users ≡ some u
    → IsFaithful signer u
unfolding same str_eq
only_alice u h = let e : alice ≡ u = ground (arith, h) in subst (IsFaithful signer) e refl

login-me_example :
    ((login plain_hasher signer "alice" "hash:alice123" world).1 ≡ world)
    × (((u : User) × (t : Token) × (find (λ (v : User). same v.username "alice") bank.users
            ≡ some u)
          × (str_eq u.password "hash:alice123" ≡ true)
          × ((login plain_hasher signer "alice" "hash:alice123" world).0 ≡ success 200 t)
          × ((later : World)
              → me (credentials_of (decoded "u1" alice_claims)) later
                ≡ (success 200 (actor_of u), later)))
        ⊎ (((login plain_hasher signer "alice" "hash:alice123" world).0 ≡ wrong_login)
            × ((u : User)
                → find (λ (v : User). same v.username "alice") bank.users ≡ some u
                → str_eq u.password "hash:alice123" ≡ false)))
login-me_example = login-me plain_hasher signer "alice" "hash:alice123" world only_alice

-- The third thread finds no pool.
abbrev one_look : Process
one_look = record initial { place = moved (λ i. first_test) 3 (after_first none) }

one_pool_example :
    (one_look.built ≤ 1)
    × ((i : ℕ) (p : Option ℕ)
        → one_look.place i ≡ returned p
        → (p ≡ some 0) × (one_look.pool ≡ some 0))
    × ((i j : ℕ) → one_look.place i ≡ building → one_look.place j ≡ building → i ≡ j)
one_pool_example = one_pool initial one_look (inl refl) (later start (look 3 refl))

-- Two withdrawals from one account, which covers one of them.
abbrev calls : ℕ → Call
calls i = record { sender = "a1"; receiver = "a2"; amount = pos 6000 }

schedule_within : All (λ i. i < 2) (0 ∷ 1 ∷ 0 ∷ 1 ∷ 0 ∷ [])
schedule_within = (omega arith, (omega arith, (omega arith, (omega arith, (omega arith, tt)))))

senders_there : (i : ℕ) → i < 2 → exists (is_account (calls i).sender) bank.accounts ≡ true
unfolding same str_eq
senders_there i lt = refl

receivers_there : (i : ℕ) → i < 2 → exists (is_account (calls i).receiver) bank.accounts ≡ true
unfolding same str_eq
receivers_there i lt = refl

abbrev crowd : Storm
crowd = storm calls (0 ∷ 1 ∷ 0 ∷ 1 ∷ 0 ∷ []) (record { database = bank; stage = λ i. reading })

race_test : crowd.stage 1 ≡ debit_failed (db_error operational_error 3819)
unfolding storm accounts_table execute_update same str_eq ◌-ℤ◌ ◌+ℤ◌ server_error
race_test = refl

naive_owes_example :
    IsSound crowd.database
    × (total_balance crowd.database +ℤ in_flight calls crowd.stage 2 ≡ total_balance bank)
naive_owes_example =
    naive_owes calls 2 (0 ∷ 1 ∷ 0 ∷ 1 ∷ 0 ∷ []) bank schedule_within bank-IsSound senders_there
      receivers_there

abbrev too_much : TransferRequest
too_much = record {
  actor = owner;
  sender_id = "a1";
  receiver_id = "a2";
  amount = record { negative = false; coefficient = 20000; exponent = negsuc 1 };
  id = "x1";
  now = 7;
}

overdraft_ends_example :
    ((serve too_much world).0 ≡ err insufficient_funds)
    × ((key : String)
        → (bank_of (serve too_much world).1.committed).holding key ≡ (bank_of bank).holding key)
    × (naive_transfer (record { sender = "a1"; receiver = "a2"; amount = pos 20000 }) reading bank
        ≡ (rejected, bank))
    × (naive_transfer (record { sender = "a1"; receiver = "a2"; amount = pos 20000 }) debiting bank
        ≡ (debit_failed (db_error operational_error 3819), bank))
unfolding same str_eq quantize is_admin owns server_error
overdraft_ends_example =
    overdraft_ends too_much (pos 20000) (account "a1" "c1" 10000) (account "a2" "c2" 500) world
      bank-IsSound refl refl (omega arith) (omega arith) refl refl refl refl
