-- ===== src/Api/CustomerSupport/Opened.antt =====
-- The tickets that app/api/customer_support.py opens.
use corebank_api.Repositories.SupportTickets
use corebank_api.Services.Support
use corebank_api.Api.CustomerSupport.{post, get, open_ticket, ticket_owner}
use corebank_api.Services.Helpers.{is_admin, Actor, ensure_owner_or_admin}
use corebank_api.Services.Account.Access.{ensure_owner_or_admin_iff}
use corebank_api.Services.Guarded.{created_found}
use corebank_api.Security.{respond, error_reply, verified, success, reply_of, jwt_required}
use corebank_api.Database.Tables.{tickets_table}
use corebank_api.Database.Engine.{Engine}
use corebank_api.Prelude.{
  true, ◌⊎◌, refl, none, sym, ap, ◌∙◌, inr, inl, Bool-cases, false, str_eq, arith, some, ◌≡◌,
  String, Option, ℕ,
}
use corebank_api.Errors.{invalid_operation, db_error, app, err, ok, Result}
use corebank_api.Database.Uow.{read_only, World}
use corebank_api.Database.Schema.{SupportTicket}
use corebank_api.Database.Rows.{find}
use corebank_api.Database.Statement.{has_key}

reply_ok :
    {A : Type 0} (code : ℕ) (r : Result A) {a : A} → reply_of code r ≡ success code a → r ≡ ok a
unfolding reply_of error_reply
reply_ok code (ok b) h = ground (arith, h)
reply_ok code (err (app kind message)) h = absurd (ground (arith, h))
reply_ok code (err (db_error c n)) h = absurd (ground (arith, h))
reply_ok code (err invalid_operation) h = absurd (ground (arith, h))

module _ ⦃e : Engine⦄ where
  open_ok :
      (owner : Option String) (employee issue id : String) (now : ℕ) (w : World) (t : SupportTicket)
      → (open_ticket owner employee issue id now w).0 ≡ ok t
      → (customer : String) × (owner ≡ some customer)
        × (str_eq customer "" ≡ false)
        × (t ≡ Support.new_record customer employee issue id now)
        × (find
              (has_key tickets_table id)
              (open_ticket owner employee issue id now w).1.committed.tickets
            ≡ some t)
  unfolding open_ticket Support.create SupportTickets.insert tickets_table Support.new_record
  open_ok none employee issue id now w t h = absurd (cc h)
  open_ok (some customer) employee issue id now w t h = elim (Bool-cases (str_eq customer "")) [
    | inl blank ↦ absurd (let k = rw blank at h in cc k)
    | inr filled ↦
        let (same_row, found) =
          created_found tickets_table (Support.new_record customer employee issue id now) w
            (λ db rows. refl) (rw filled at h) in
        (customer, refl, filled, same_row, rw filled (found ∙ ap some (sym same_row)))
  ]

  allowed :
      (actor : Actor) (named : Option String) (customer : String)
      → ticket_owner actor named ≡ some customer
      → str_eq customer "" ≡ false
      → ensure_owner_or_admin actor (some customer) ≡ ok tt
  unfolding ticket_owner
  allowed actor named customer own filled = elim (Bool-cases (is_admin actor)) [
    | inl adm ↦ (ensure_owner_or_admin_iff actor (some customer)).1 (inl adm)
    | inr plain ↦
        (ensure_owner_or_admin_iff actor (some customer)).1
          (inr (customer, refl, rw plain at own, filled))
  ]

  shown :
      (actor : Actor) (id : String) (w : World) (t : SupportTicket)
      → find (has_key tickets_table id) w.committed.tickets ≡ some t
      → ensure_owner_or_admin actor (some t.customer_id) ≡ ok tt
      → (get id (verified actor) w).0 ≡ success 200 t
  unfolding get Support.get SupportTickets.get read_only tickets_table jwt_required respond reply_of
  shown actor id w t found open_row = rw (found, open_row) refl

  named_or_own :
      (actor : Actor) (named : Option String) {o : Option String}
      → ticket_owner actor named ≡ o
      → ((is_admin actor ≡ true) × (named ≡ o))
        ⊎ ((is_admin actor ≡ false) × (actor.customer_id ≡ o))
  unfolding ticket_owner
  named_or_own actor named own = elim (Bool-cases (is_admin actor)) [
    | inl adm ↦ inl (adm, rw adm at own)
    | inr plain ↦ inr (plain, rw plain at own)
  ]

  -- A ticket that a request has opened carries the customer id that the request named, if the
  -- principal is an administrator, and otherwise the principal's own customer id, whatever the request
  -- named; and the same principal gets the ticket back by its id.
  pub get-post :
      (actor : Actor) (named : Option String) (employee issue id : String) (now : ℕ) (w : World)
      (t : SupportTicket)
      → (post named employee issue id now (verified actor) w).0 ≡ success 201 t
      → (((is_admin actor ≡ true) × (named ≡ some t.customer_id))
          ⊎ ((is_admin actor ≡ false) × (actor.customer_id ≡ some t.customer_id)))
        × ((get id (verified actor) (post named employee issue id now (verified actor) w).1).0
            ≡ success 200 t)
  unfolding post jwt_required respond Support.new_record
  get-post actor named employee issue id now w t h =
      let opened = open_ticket (ticket_owner actor named) employee issue id now w in
      let (customer, own, filled, same_row, found) =
        open_ok (ticket_owner actor named) employee issue id now w t (reply_ok 201 opened.0 h) in
      let customer_of : some customer ≡ some t.customer_id =
        ap (λ (x : SupportTicket). some x.customer_id) (sym same_row) in
      (
        named_or_own actor named (own ∙ customer_of),
        shown actor id opened.1 t found (
            ap (ensure_owner_or_admin actor) (sym customer_of)
            ∙ allowed actor named customer own filled),
      )
