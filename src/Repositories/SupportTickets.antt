-- ===== src/Repositories/SupportTickets.antt =====
-- app/repositories/support_tickets.py
pub mod Report
use corebank_api.Prelude.{
  [], max, map, ◌&&◌, ◌==◌, false, ltb, true, ◌∷◌, Bool, Option, String, List, ℕ,
}
use corebank_api.Database.Schema.{resolved, Employee, SupportTicket, Db, TicketStatus}
use corebank_api.Database.Engine.{same, Engine}
use corebank_api.Database.Tables.{tickets_table}
use corebank_api.Database.Statement.{
  has_key, fetch_one, execute_update, fetch_all, execute_delete, execute_insert, Stmt,
}
use corebank_api.Database.Rows.{count, select}
use corebank_api.Errors.{ok}

-- A row of the top-resolvers report.
pub record Resolver : Type 0 where
  pub employee_id : String
  pub first_name : String
  pub last_name : String
  pub resolved_tickets : ℕ

abbrev pub is_resolved : TicketStatus → Bool
is_resolved resolved = true
is_resolved _ = false

-- `MAX(resolved_tickets)`
unfoldable pub most : List Resolver → ℕ
most [] = 0
most (r ∷ rest) = max r.resolved_tickets (most rest)

module _ ⦃e : Engine⦄ where
  unfoldable pub insert : SupportTicket → Stmt (Unit {0})
  insert row = execute_insert tickets_table row

  unfoldable pub list_all : Stmt (List SupportTicket)
  unfolding tickets_table
  list_all = fetch_all tickets_table (λ _. true)

  unfoldable pub get : String → Stmt (Option SupportTicket)
  unfolding tickets_table
  get ticket_id = fetch_one tickets_table (has_key tickets_table ticket_id)

  -- The tickets that the CTE joins to one employee.
  unfoldable pub resolved_count : Db → Employee → ℕ
  resolved_count db m =
      count (λ t. is_resolved t.status && same t.employee_id m.employee_id) db.tickets

  -- The groups of the CTE: the employees with a resolved ticket.
  unfoldable pub resolved_tickets : Db → List Resolver
  unfolding resolved_count
  resolved_tickets db =
      select (λ r. ltb 0 r.resolved_tickets)
        (map
          (λ (m : Employee). record {
            employee_id = m.employee_id;
            first_name = m.first_name;
            last_name = m.last_name;
            resolved_tickets = resolved_count db m;
          })
          db.employees)

  unfoldable pub top_resolvers : Stmt (List Resolver)
  unfolding resolved_tickets most
  top_resolvers s =
      let groups = resolved_tickets s.db in
      (ok (select (λ r. r.resolved_tickets == most groups) groups), s)

  unfoldable pub set_status : String → TicketStatus → Option ℕ → Stmt ℕ
  set_status ticket_id status resolved_date =
      execute_update tickets_table (has_key tickets_table ticket_id)
        (λ t. record t { status = status; resolved_date = resolved_date })

  unfoldable pub delete : String → Stmt ℕ
  delete ticket_id = execute_delete tickets_table ticket_id
