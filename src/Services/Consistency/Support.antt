-- ===== src/Services/Consistency/Support.antt =====
-- app/repositories/support_tickets.py and app/services/support_service.py keep the database consistent.
use corebank_api.Repositories.SupportTickets
use corebank_api.Services.Support
use corebank_api.Database.Consistency.Keeps.{
  Keeps, Serves, Keeps-insert, Keeps-update, Keeps-delete, Serves-read,
}
use corebank_api.Database.Consistency.Blocks.{serves_rules}
use corebank_api.Database.Consistency.Leaves.{tickets-Whole}
use corebank_api.Database.Tables.{tickets_table}
use corebank_api.Database.Engine.{Engine}
use corebank_api.Database.Schema.{TicketStatus, SupportTicket}
use corebank_api.Database.Statement.{has_key}
use corebank_api.Prelude.{refl, Option, ℕ, String}
use corebank_api.Services.Helpers.{Actor}

module _ ⦃e : Engine⦄ where
  insert-Keeps : (row : SupportTicket) → Keeps (SupportTickets.insert row)
  unfolding SupportTickets.insert
  insert-Keeps row = Keeps-insert tickets_table tickets-Whole row

  delete-Keeps : (id : String) → Keeps (SupportTickets.delete id)
  unfolding SupportTickets.delete
  delete-Keeps id = Keeps-delete tickets_table tickets-Whole id

  set_status-Keeps :
      (id : String) (status : TicketStatus) (resolved : Option ℕ)
      → Keeps (SupportTickets.set_status id status resolved)
  unfolding SupportTickets.set_status tickets_table has_key
  set_status-Keeps id status resolved =
      Keeps-update tickets_table tickets-Whole (has_key tickets_table id)
        (λ t. record t { status = status; resolved_date = resolved }) id (λ _. refl) λ _ h. h

  pub create-Serves :
      (customer_id employee_id issue id : String) (now : ℕ)
      → Serves (Support.create customer_id employee_id issue id now)
  unfolding Support.create
  create-Serves customer_id employee_id issue id now = search (serves_rules, insert-Keeps)

  pub set_status-Serves :
      (id : String) (status : TicketStatus) (now : ℕ) → Serves (Support.set_status id status now)
  unfolding Support.set_status Support.set_status_block SupportTickets.get
  set_status-Serves id status now = search (serves_rules, set_status-Keeps)

  pub delete-Serves : (id : String) → Serves (Support.delete id)
  unfolding Support.delete
  delete-Serves id = search (serves_rules, delete-Keeps)

  pub list_all-Serves : Serves (Support.list_all)
  unfolding Support.list_all
  list_all-Serves = Serves-read SupportTickets.list_all

  pub get-Serves : (id : String) (actor : Actor) → Serves (Support.get id actor)
  unfolding Support.get
  get-Serves id actor = search serves_rules

  pub top_resolvers-Serves : Serves (Support.top_resolvers)
  unfolding Support.top_resolvers
  top_resolvers-Serves = Serves-read SupportTickets.top_resolvers

-- Every operation of the service keeps the database consistent.
pub ruleset support_consistent = (
  create-Serves, set_status-Serves, delete-Serves, list_all-Serves, get-Serves,
  top_resolvers-Serves,
)
