-- ===== src/Api/CustomerSupport.antt =====
-- app/api/customer_support.py
pub mod Opened
use corebank_api.Prelude.{none, str_eq, some, List, ℕ, if◌then◌else◌, Option, String}
use corebank_api.Services.Support
use corebank_api.Database.Engine.{Engine}
use corebank_api.Security.{View, admin_required, jwt_required}
use corebank_api.Services.Helpers.{is_admin, Actor}
use corebank_api.Database.Schema.{SupportTicket, TicketStatus}
use corebank_api.Database.Uow.{fail, Action}
use corebank_api.Repositories.SupportTickets.{Resolver}
use corebank_api.Errors.{bad_request, app}

-- `data.get("customer_id") if is_admin() else actor["customer_id"]`
unfoldable pub ticket_owner : Actor → Option String → Option String
ticket_owner actor named = if is_admin actor then named else actor.customer_id

module _ ⦃e : Engine⦄ where
  -- the ticket of a customer, unless the id is missing or empty
  unfoldable pub open_ticket : Option String → String → String → String → ℕ → Action SupportTicket
  open_ticket none employee_id issue_description id now =
      fail (app bad_request "A customer_id is required")
  open_ticket (some customer_id) employee_id issue_description id now =
      if str_eq customer_id ""
      then fail (app bad_request "A customer_id is required")
      else Support.create customer_id employee_id issue_description id now

  unfoldable pub get_all : View (List SupportTicket)
  unfolding admin_required
  get_all = admin_required 200 λ _. Support.list_all

  unfoldable pub post : Option String → String → String → String → ℕ → View SupportTicket
  unfolding jwt_required
  post customer_id employee_id issue_description id now =
      jwt_required 201
        λ actor. open_ticket (ticket_owner actor customer_id) employee_id issue_description id now

  unfoldable pub get_top_resolvers : View (List Resolver)
  unfolding admin_required
  get_top_resolvers = admin_required 200 λ _. Support.top_resolvers

  unfoldable pub get : String → View SupportTicket
  unfolding jwt_required
  get id = jwt_required 200 λ actor. Support.get id actor

  unfoldable pub delete : String → View (Unit {0})
  unfolding admin_required
  delete id = admin_required 204 λ _. Support.delete id

  unfoldable pub put_status : String → TicketStatus → ℕ → View (Option SupportTicket)
  unfolding admin_required
  put_status id status now = admin_required 200 λ _. Support.set_status id status now
