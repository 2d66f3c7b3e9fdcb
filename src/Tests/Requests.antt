-- ===== src/Tests/Requests.antt =====
-- Requests about users and tickets, at inputs that meet the hypotheses of their theorems.
use corebank_api.Services.Support
use corebank_api.Repositories.SupportTickets
use corebank_api.Database.Tables.{tickets_table}
use corebank_api.Security.{reply_of}
use corebank_api.Api.CustomerSupport
use corebank_api.Api.CustomerSupport.Opened.{get-post}
use corebank_api.Services.User
use corebank_api.Repositories.Users
use corebank_api.Services.User.RoundTrip.{authenticate-create}
use corebank_api.Repositories.SupportTickets.Report.{top_resolvers_lem, row_of, leads, resolved_by}
use corebank_api.Repositories.SupportTickets.{top_resolvers}
use corebank_api.Services.Auth.{authenticate}
use corebank_api.Tests.Bank.{plain_hasher, mysql, bank, world, owner}
use corebank_api.Prelude.{
  Option, String, String, true, false, ◌⊎◌, map, refl, [], ◌∷◌, ◌≡◌, none, str_eq, some,
}
use corebank_api.Errors.{ok}
use corebank_api.Database.Schema.{
  admin, TicketStatus, resolved, in_progress, open_status, Employee, SupportTicket, user,
}
use corebank_api.Security.{verified, success}
use corebank_api.Database.Tables.{users_table}
use corebank_api.Database.Engine.{same}
use corebank_api.Database.Statement.{execute_insert}
use corebank_api.Database.Rows.{select}
use corebank_api.Services.Helpers.{Actor, is_admin}
use corebank_api.Database.Uow.{integrity_guard, unit_of_work, begin, World}

bob_test :
    (User.create plain_hasher "bob" "secret" user none "u2" "salt" world).0
    ≡ ok (record { user_id = "u2"; username = "bob"; role = user; customer_id = none })
unfolding User.create unit_of_work integrity_guard Users.insert users_table execute_insert same
    str_eq Users.public User.new_record
bob_test = refl

authenticate-create_example :
    (authenticate plain_hasher "bob" "secret"
      (User.create plain_hasher "bob" "secret" user none "u2" "salt" world).1).0
    ≡ ok (record { user_id = "u2"; role = user; customer_id = none })
unfolding str_eq
authenticate-create_example =
    authenticate-create plain_hasher "bob" "secret" user none "u2" "salt" world
      (record { user_id = "u2"; username = "bob"; role = user; customer_id = none }) refl bob_test

abbrev clerk : Employee
clerk = record {
  employee_id = "e1";
  branch_id = "b1";
  first_name = "Eve";
  last_name = "Hill";
  position = "clerk";
  hire_date = 1;
  phone_number = "021";
  email = "eve";
}

abbrev staffed : World
staffed = record world { committed = record bank { employees = clerk ∷ [] } }

-- Two clerks: one has resolved a ticket and has another one open, the other has two open tickets.
abbrev of_clerk : String → String → TicketStatus → SupportTicket
of_clerk id employee status = record {
  ticket_id = id;
  customer_id = "c1";
  employee_id = employee;
  issue_description = "card";
  status = status;
  created_date = 1;
  resolved_date = none;
}

abbrev desk : World
desk = record world {
  committed = record bank {
    employees = record clerk { employee_id = "e2" } ∷ clerk ∷ [];
    tickets =
        of_clerk "t1" "e1" resolved
        ∷ of_clerk "t2" "e2" open_status
        ∷ of_clerk "t3" "e2" open_status
        ∷ of_clerk "t4" "e1" in_progress
        ∷ [];
  };
}

top_resolvers_test :
    (top_resolvers (begin desk)).0
    ≡ ok (
        record { employee_id = "e1"; first_name = "Eve"; last_name = "Hill"; resolved_tickets = 1 }
        ∷ [])
unfolding top_resolvers same str_eq
top_resolvers_test = refl

top_resolvers_lem_example :
    (top_resolvers (begin desk)).0
    ≡ ok (
        map (row_of (resolved_by desk.committed.tickets)) (
          select
            (leads (resolved_by desk.committed.tickets) desk.committed.employees)
            desk.committed.employees))
top_resolvers_lem_example = top_resolvers_lem (begin desk)

abbrev opened_ticket : SupportTicket
opened_ticket = record {
  ticket_id = "t2";
  customer_id = "c1";
  employee_id = "e1";
  issue_description = "card";
  status = open_status;
  created_date = 5;
  resolved_date = none;
}

post_test :
    (CustomerSupport.post none "e1" "card" "t2" 5 (verified owner) staffed).0
    ≡ success 201 opened_ticket
unfolding CustomerSupport.post CustomerSupport.open_ticket CustomerSupport.ticket_owner is_admin
    str_eq Support.create unit_of_work integrity_guard SupportTickets.insert execute_insert
    tickets_table same Support.new_record reply_of
post_test = refl

abbrev officer : Actor
officer = record { user_id = "u0"; role = some admin; customer_id = some "c1" }

abbrev named_ticket : SupportTicket
named_ticket = record opened_ticket { customer_id = "c2" }

-- an administrator with a customer id of its own, who names another customer
named_test :
    (CustomerSupport.post (some "c2") "e1" "card" "t2" 5 (verified officer) staffed).0
    ≡ success 201 named_ticket
unfolding CustomerSupport.post CustomerSupport.open_ticket CustomerSupport.ticket_owner is_admin
    str_eq Support.create unit_of_work integrity_guard SupportTickets.insert execute_insert
    tickets_table same Support.new_record reply_of
named_test = refl

get-post_example :
    (((is_admin officer ≡ true) × ◌≡◌ {A = Option String} (some "c2") (some "c2"))
      ⊎ ((is_admin officer ≡ false) × ◌≡◌ {A = Option String} (some "c1") (some "c2")))
    × ((CustomerSupport.get "t2"
          (verified officer)
          (CustomerSupport.post (some "c2") "e1" "card" "t2" 5 (verified officer) staffed).1).0
        ≡ success 200 named_ticket)
get-post_example = get-post officer (some "c2") "e1" "card" "t2" 5 staffed named_ticket named_test
