-- ===== src/Api/Schemas/CustomerSupport.antt =====
-- The schemas of app/api/customer_support.py.
use corebank_api.Api.Schemas.{
  Schema, null, string, integer, date_time, shortest, one_of, field, required, dump_only,
  allow_none, validate, load_default,
}
use corebank_api.Prelude.{List, [], ◌∷◌, String}

abbrev pub ticket_statuses : List String
ticket_statuses = "OPEN" ∷ "IN_PROGRESS" ∷ "RESOLVED" ∷ []

abbrev pub ticket_schema : Schema
ticket_schema =
    dump_only (field string "ticket_id")
    ∷ field string "customer_id"
    ∷ required (field string "employee_id")
    ∷ required (field string "issue_description")
    ∷ dump_only (field string "status")
    ∷ dump_only (field date_time "created_date")
    ∷ allow_none (dump_only (field date_time "resolved_date"))
    ∷ []

abbrev pub ticket_create_schema : Schema
ticket_create_schema =
    load_default null (field string "customer_id")
    ∷ required (field string "employee_id")
    ∷ validate (shortest 1 ∷ []) (required (field string "issue_description"))
    ∷ []

abbrev pub ticket_status_schema : Schema
ticket_status_schema =
    validate (one_of ticket_statuses ∷ []) (required (field string "status")) ∷ []

abbrev pub top_resolver_schema : Schema
top_resolver_schema =
    field string "employee_id"
    ∷ field string "first_name"
    ∷ field string "last_name"
    ∷ field integer "resolved_tickets"
    ∷ []
