-- ===== src/Services/Transaction/Visibility.antt =====
-- Which single transactions app/services/transaction_service.py shows to whom.
use corebank_api.Repositories.Accounts
use corebank_api.Repositories.Transactions
use corebank_api.Services.Transaction.{get, sees_party, ensure_actor_sees_transaction}
use corebank_api.Services.Helpers.{is_admin, owns, Actor}
use corebank_api.Services.Account.Access.{owns_own, owns_self}
use corebank_api.Repositories.Accounts.Money.{is_account}
use corebank_api.Database.Uow.{World, read_only, begin}
use corebank_api.Database.Engine.{same, Engine}
use corebank_api.Prelude.{
  ap, sym, subst, not, ◌∙◌, ◌↔◌, arith, Option-cases, refl, inr, inl, none, ◌⊎◌, Bool-cases, true,
  ◌||◌, if◌then◌else◌, false, ◌≡◌, Bool, some, str_eq, Option, String,
}
use corebank_api.Database.Schema.{Db, Account, Transaction}
use corebank_api.Database.Statement.{◌>>=◌, raise_if, pure, Stmt, Session}
use corebank_api.Errors.{not_found, Result, ok_eq, Exception, forbidden, app, err, ok}
use corebank_api.Database.Rows.{find}
use corebank_api.Database.Tables.{transactions_table}
use corebank_api.Database.Statement.Effects.{after_ok}

or_last : (a b c : Bool) → a ≡ false → b ≡ false → (a || b || c) ≡ true → c ≡ true
or_last a b c h k l = ground arith

or_middle : (a b c : Bool) → b ≡ true → (a || b || c) ≡ true
or_middle a b c h = ground arith

or_end : (a b c : Bool) → c ≡ true → (a || b || c) ≡ true
or_end a b c h = ground arith

module _ ⦃e : Engine⦄ where
  -- The id names an account of the principal.
  abbrev pub IsOwn : Actor → String → Db → Type 0
  IsOwn actor id db =
      (str_eq id "" ≡ false)
      × (a : Account) × (find (is_account id) db.accounts ≡ some a)
      × (actor.customer_id ≡ some a.customer_id)

  abbrev pub MaySee : Actor → Transaction → Db → Type 0
  MaySee actor t db =
      (is_admin actor ≡ true)
      ⊎ IsOwn actor t.from_account_id db
      ⊎ ((id : String) × (t.to_account_id ≡ some id) × IsOwn actor id db)

  -- the value of `sees_party`
  abbrev owns_found : Actor → Option Account → Bool
  owns_found actor none = false
  owns_found actor (some a) = owns actor (some a.customer_id)

  abbrev party : Actor → Option String → Db → Bool
  party actor none db = false
  party actor (some id) db =
      if str_eq id "" then false else owns_found actor (find (is_account id) db.accounts)

  sees_party_lem :
      (actor : Actor) (o : Option String) (s : Session)
      → sees_party actor o s ≡ (ok (party actor o s.db), s)
  unfolding sees_party Accounts.get
  sees_party_lem actor none s = refl
  sees_party_lem actor (some id) s = elim (Bool-cases (str_eq id "")) [
    | inl blank ↦ rw blank refl
    | inr filled ↦ elim (Option-cases (find (is_account id) s.db.accounts)) [
      | inl gone ↦ rw (filled, gone) refl
      | inr (a, found) ↦ rw (filled, found) refl
    ]
  ]

  party-IsOwn :
      (actor : Actor) (id : String) (db : Db) → party actor (some id) db ≡ true → IsOwn actor id db
  unfolding owns
  party-IsOwn actor id db h = elim (Bool-cases (str_eq id "")) [
    | inl blank ↦ absurd (let k = rw blank at h in cc k)
    | inr filled ↦
        let k = rw filled at h in
        elim (Option-cases (find (is_account id) db.accounts)) [
          | inl gone ↦ absurd (let j = rw gone at k in cc j)
          | inr (a, found) ↦
              (filled, a, found, owns_own actor.customer_id a.customer_id (rw found at k))
        ]
  ]

  own_party :
      (actor : Actor) (id : String) (db : Db) → IsOwn actor id db → party actor (some id) db ≡ true
  unfolding owns
  own_party actor id db (filled, a, found, own) =
      rw (filled, found) (owns_self actor.customer_id a.customer_id own)

  abbrev no_view : Exception
  no_view = app forbidden "You do not have access to this transaction"

  -- the rest of the guard after the sender's side
  abbrev second_party : Actor → Transaction → Bool → Stmt (Unit {0})
  second_party actor t from_own =
      if from_own
      then pure tt
      else sees_party actor t.to_account_id >>= λ to_own. raise_if (not to_own) no_view

  -- the guard as a test
  abbrev admits : Actor → Transaction → Db → Bool
  admits actor t db =
      is_admin actor || party actor (some t.from_account_id) db || party actor t.to_account_id db

  ensure_lem :
      (actor : Actor) (t : Transaction) (s : Session)
      → ensure_actor_sees_transaction actor t s
        ≡ (if admits actor t s.db then ok tt else err no_view, s)
  unfolding ensure_actor_sees_transaction
  ensure_lem actor t s = elim (Bool-cases (is_admin actor)) [
    | inl adm ↦ rw adm refl
    | inr plain ↦ rw plain (
        after_ok (sees_party actor (some t.from_account_id)) (second_party actor t) s
          (sees_party_lem actor (some t.from_account_id) s)
        ∙ elim (Bool-cases (party actor (some t.from_account_id) s.db)) [
          | inl own ↦ rw own refl
          | inr other ↦ rw other (
              after_ok (sees_party actor t.to_account_id) (λ to_own. raise_if (not to_own) no_view)
                s (sees_party_lem actor t.to_account_id s)
              ∙ elim (Bool-cases (party actor t.to_account_id s.db)) [
                | inl own ↦ rw own refl
                | inr none_own ↦ rw none_own refl
              ])
        ])
  ]

  receiver-IsOwn :
      (actor : Actor) (o : Option String) (db : Db)
      → party actor o db ≡ true
      → (id : String) × (o ≡ some id) × IsOwn actor id db
  receiver-IsOwn actor none db h = cc h
  receiver-IsOwn actor (some id) db h = (id, refl, party-IsOwn actor id db h)

  admits_lem :
      (actor : Actor) (t : Transaction) (db : Db) → (admits actor t db ≡ true) ↔ MaySee actor t db
  admits_lem actor t db = (
    λ h. elim (Bool-cases (is_admin actor)) [
      | inl adm ↦ inl adm
      | inr plain ↦ elim (Bool-cases (party actor (some t.from_account_id) db)) [
        | inl own ↦ inr (inl (party-IsOwn actor t.from_account_id db own))
        | inr other ↦ inr (
            inr (
              receiver-IsOwn actor t.to_account_id db (
                or_last (is_admin actor) (party actor (some t.from_account_id) db) _ plain other
                  h)))
      ]
    ],
    λ c. elim c [
      | inl adm ↦ rw adm refl
      | inr (inl own) ↦
          or_middle (is_admin actor) (party actor (some t.from_account_id) db) _
            (own_party actor t.from_account_id db own)
      | inr (inr (id, to, own)) ↦
          or_end (is_admin actor) (party actor (some t.from_account_id) db) _
            (rw to (own_party actor id db own))
    ],
  )

  -- what `get` ends in, by what it finds
  abbrev answer : Actor → Db → Option Transaction → Result Transaction
  answer actor db none = err (app not_found "Transaction not found")
  answer actor db (some t) = if admits actor t db then ok t else err no_view

  get_lem :
      (id : String) (actor : Actor) (w : World)
      → (get id actor w).0
        ≡ answer actor w.committed
            (find (λ (r : Transaction). same r.transaction_id id) w.committed.transactions)
  unfolding get read_only Transactions.get transactions_table
  get_lem id actor w =
      elim (Option-cases
        (find (λ (r : Transaction). same r.transaction_id id) w.committed.transactions)) [
          | inl gone ↦ rw gone refl
          | inr (t, found) ↦
              let last : Result (Unit {0}) × Session → Result Transaction = λ p.
                let out : Result Transaction × Session = elim p.0 [
                  | ok a ↦ (ok t, p.1)
                  | err x ↦ (err x, p.1)
                ] in
                out.0 in
              rw found (
                ap last (ensure_lem actor t (begin w))
                ∙ elim (Bool-cases (admits actor t w.committed)) [
                  | inl open_row ↦ rw open_row refl
                  | inr shut ↦ rw shut refl
                ])
        ]

  answer_lem :
      (actor : Actor) (db : Db) (found : Option Transaction) (t : Transaction)
      → (answer actor db found ≡ ok t) ↔ ((found ≡ some t) × MaySee actor t db)
  answer_lem actor db none t = (λ h. cc h, λ h. absurd (ground (arith, h.0)))
  answer_lem actor db (some r) t = elim (Bool-cases (admits actor r db)) [
    | inl open_row ↦ (
      λ h.
          let same_row : r ≡ t = ok_eq (rw open_row at h) in
          (
            ap some same_row,
            subst (λ x. MaySee actor x db) same_row ((admits_lem actor r db).0 open_row),
          ),
      λ h. rw open_row (ground (arith, h.0)),
    )
    | inr shut ↦ (
      λ h. absurd (let k = rw shut at h in cc k),
      λ h.
          let same_row : r ≡ t = ground (arith, h.0) in
          let may : admits actor r db ≡ true =
            (admits_lem actor r db).1 (subst (λ x. MaySee actor x db) (sym same_row) h.1) in
          absurd (cc (shut, may)),
    )
  ]

  -- `get` returns a transaction to a principal exactly if it is the one with that id, and the
  -- principal is an administrator or has the customer id of the account on one of its two sides, in
  -- so far as that side names an account that exists.
  pub get_visible :
      (id : String) (actor : Actor) (w : World) (t : Transaction)
      → ((get id actor w).0 ≡ ok t) ↔ (
          (find (λ (r : Transaction). same r.transaction_id id) w.committed.transactions ≡ some t)
          × MaySee actor t w.committed)
  get_visible id actor w t =
      let rows = w.committed.transactions in
      subst
        (λ (r : Result Transaction). (r ≡ ok t) ↔ (
          (find (λ (r : Transaction). same r.transaction_id id) rows ≡ some t)
          × MaySee actor t w.committed))
        (sym (get_lem id actor w))
        (answer_lem actor w.committed (find (λ (r : Transaction). same r.transaction_id id) rows) t)
