-- ===== src/Services/Support.antt =====
-- app/services/support_service.py
pub mod Resolution
use corebank_api.Repositories.SupportTickets
use corebank_api.Prelude.{none, some, List, Option, String, ℕ}
use corebank_api.Database.Engine.{Engine}
use corebank_api.Database.Schema.{in_progress, resolved, open_status, SupportTicket, TicketStatus}
use corebank_api.Services.Helpers.{ensure_owner_or_admin, Actor}
use corebank_api.Database.Uow.{and_then, read_only, integrity_guard, after, unit_of_work, Action}
use corebank_api.Database.Statement.{Stmt, pure, value_or, require_row, ◌>>=◌, ◌>>◌}
use corebank_api.Errors.{ok, not_found, app}

-- The `record` of `create`.
unfoldable pub new_record : String → String → String → String → ℕ → SupportTicket
new_record customer_id employee_id issue_description id now = record {
  ticket_id = id;
  customer_id = customer_id;
  employee_id = employee_id;
  issue_description = issue_description;
  status = open_status;
  created_date = now;
  resolved_date = none;
}

-- `utcnow() if status == "RESOLVED" else None`
unfoldable pub resolution_date : TicketStatus → ℕ → Option ℕ
resolution_date resolved now = some now
resolution_date open_status now = none
resolution_date in_progress now = none

module _ ⦃e : Engine⦄ where
  unfoldable pub create : String → String → String → String → ℕ → Action SupportTicket
  create customer_id employee_id issue_description id now = unit_of_work (
      integrity_guard do
        SupportTickets.insert (new_record customer_id employee_id issue_description id now)
        pure (new_record customer_id employee_id issue_description id now))

  unfoldable pub list_all : Action (List SupportTicket)
  list_all = read_only SupportTickets.list_all

  unfoldable pub get : String → Actor → Action SupportTicket
  get ticket_id actor = after (read_only (SupportTickets.get ticket_id)) λ found.
      and_then (value_or found (app not_found "Ticket not found"))
        λ row. and_then (ensure_owner_or_admin actor (some row.customer_id)) λ _. ok row

  unfoldable pub set_status_block : String → TicketStatus → ℕ → Stmt (Option SupportTicket)
  set_status_block ticket_id status now = do
    written ← SupportTickets.set_status ticket_id status (resolution_date status now)
    require_row written (app not_found "Ticket not found")
    SupportTickets.get ticket_id

  unfoldable pub set_status : String → TicketStatus → ℕ → Action (Option SupportTicket)
  set_status ticket_id status now =
      unit_of_work (integrity_guard (set_status_block ticket_id status now))

  unfoldable pub delete : String → Action (Unit {0})
  delete ticket_id = unit_of_work (
      integrity_guard do
        gone ← SupportTickets.delete ticket_id
        require_row gone (app not_found "Ticket not found"))

  unfoldable pub top_resolvers : Action (List SupportTickets.Resolver)
  top_resolvers = read_only SupportTickets.top_resolvers
