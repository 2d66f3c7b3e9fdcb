-- ===== src/Services/Account/Access.antt =====
-- Which accounts app/services/account_service.py shows to whom.
use corebank_api.Repositories.Accounts
use corebank_api.Services.Account.{get, list_for_actor, list_owned}
use corebank_api.Prelude.{
  subst, str_eq_iff, ◌∙◌, ap, sym, refl, arith, inr, ◌∷◌, not, [], Bool-cases, ◌||◌, Bool, inl,
  none, str_eq, some, ◌⊎◌, true, ◌↔◌, false, List, ◌≡◌, Option, String,
}
use corebank_api.Services.Helpers.{
  own_test, no_access, is_admin, Actor, owns, is_blank, ensure_owner_or_admin,
}
use corebank_api.Database.Engine.{same, Engine}
use corebank_api.Database.Uow.{begin, World, read_only}
use corebank_api.Database.Schema.{Account}
use corebank_api.Errors.{ok_eq, not_found, app, ok}
use corebank_api.Database.Rows.{select, find}
use corebank_api.Repositories.Accounts.Money.{is_account}
use corebank_api.Database.Uow.Atomicity.{read_only_lem, and_then_ok}
use corebank_api.Database.Statement.{value_or}
use corebank_api.Database.Statement.Effects.{guard_ok, value_or_ok}

pub owns_own : (own : Option String) (id : String) → own_test own id ≡ true → own ≡ some id
unfolding str_eq
owns_own none id e = cc e
owns_own (some o) id e = ap some ((str_eq_iff o id).0 e)

pub owns_self : (own : Option String) (id : String) → own ≡ some id → own_test own id ≡ true
owns_self none id e = cc e
owns_self (some o) id e = (str_eq_iff o id).1 (cc e)

both_fail : (a b : Bool) → (a || not b) ≡ false → (a ≡ false) × (b ≡ true)
both_fail a b h = ground arith

-- The ownership check passes exactly for an administrator, and for a principal whose customer id is
-- that of the resource and is not empty.
pub ensure_owner_or_admin_iff :
    (actor : Actor) (customer_id : Option String)
    → (ensure_owner_or_admin actor customer_id ≡ ok tt) ↔ (
        (is_admin actor ≡ true)
        ⊎ ((id : String) × (customer_id ≡ some id)
            × (actor.customer_id ≡ some id)
            × (str_eq id "" ≡ false)))
unfolding ensure_owner_or_admin is_blank owns
ensure_owner_or_admin_iff actor none = (
  λ h. inl (elim (Bool-cases (is_admin actor)) [
    | inl e ↦ e
    | inr e ↦ absurd (let k = rw e at h in cc k)
  ]),
  λ c. elim c [ inl e ↦ rw e | inr (id, e, _, _) ↦ cc e ],
)
ensure_owner_or_admin_iff actor (some id) = (
  λ h. elim (Bool-cases (is_admin actor)) [
    | inl e ↦ inl e
    | inr e ↦
        let (filled, owned) =
          both_fail (str_eq id "") (own_test actor.customer_id id)
            (guard_ok _ no_access (rw e at h)) in
        inr (id, refl, owns_own actor.customer_id id owned, filled)
  ],
  λ c. elim c [
    | inl e ↦ rw e
    | inr (own, same_id, e, filled) ↦
        let p : own ≡ id = cc same_id in
        let owned : own_test actor.customer_id id ≡ true =
          owns_self actor.customer_id id (e ∙ ap some p) in
        elim (Bool-cases (is_admin actor)) [
          | inl adm ↦ rw adm
          | inr plain ↦ rw (plain, subst (λ x. str_eq x "" ≡ false) p filled, owned)
        ]
  ],
)

module _ ⦃e : Engine⦄ where
  -- An account that `get` returns is the principal's own, unless the principal is an administrator;
  -- and it is the account with the id that was asked for.
  pub get_own :
      (id : String) (actor : Actor) (w : World) (a : Account)
      → (get id actor w).0 ≡ ok a
      → (find (is_account id) w.committed.accounts ≡ some a)
        × ((is_admin actor ≡ true) ⊎ (actor.customer_id ≡ some a.customer_id))
  unfolding get Accounts.get read_only
  get_own id actor w a h =
      let (row, e1, h2) =
        and_then_ok
          (value_or (find (is_account id) w.committed.accounts) (app not_found "Account not found"))
          h in
      let (u, e2, h3) = and_then_ok (ensure_owner_or_admin actor (some row.customer_id)) h2 in
      let same_row : row ≡ a = ok_eq h3 in
      (
        value_or_ok (find (is_account id) w.committed.accounts) _ e1 ∙ ap some same_row,
        elim ((ensure_owner_or_admin_iff actor (some row.customer_id)).0 e2) [
          | inl admin ↦ inl admin
          | inr (own, p, q, _) ↦ inr (q ∙ sym p ∙ ap (λ (r : Account). some r.customer_id) same_row)
        ],
      )

  -- Whether a principal is listed an account.
  abbrev pub listed : Option String → Account → Bool
  listed none a = false
  listed (some id) a = same a.customer_id id

  select_nothing : (rows : List Account) → select (λ _. false) rows ≡ []
  select_nothing [] = refl
  select_nothing (a ∷ rows) = select_nothing rows

  -- A principal is listed exactly the accounts of its customer id, in the order of the table, and
  -- none if it has no customer id; an administrator is listed every account.
  pub list_visible :
      (actor : Actor) (w : World)
      → list_for_actor actor w
        ≡ (ok (select (λ a. is_admin actor || listed actor.customer_id a) w.committed.accounts), w)
  unfolding list_for_actor list_owned Accounts.list_all Accounts.list_by_customer
  list_visible actor w = elim (Bool-cases (is_admin actor)) [
    | inl e ↦ rw e (read_only_lem Accounts.list_all w)
    | inr e ↦
        rw e
          (read_only_lem (list_owned actor.customer_id) w ∙ (λ i. (owned actor.customer_id i, w)))
  ]
    where
      owned :
          (own : Option String)
          → (list_owned own (begin w)).0 ≡ ok (select (listed own) w.committed.accounts)
      owned none = ap ok (sym (select_nothing w.committed.accounts))
      owned (some id) = refl
