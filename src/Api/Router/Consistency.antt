-- ===== src/Api/Router/Consistency.antt =====
-- What the gates of app/security/auth.py and the dispatch of app/api leave of the database.
use corebank_api.Api.Accounts as AccountsViews
use corebank_api.Api.Branches as BranchesViews
use corebank_api.Api.Cards as CardsViews
use corebank_api.Api.CreditScores as CreditScoresViews
use corebank_api.Api.Customers as CustomersViews
use corebank_api.Api.CustomerSupport as CustomerSupportViews
use corebank_api.Api.Employees as EmployeesViews
use corebank_api.Api.LoanPayments as LoanPaymentsViews
use corebank_api.Api.Loans as LoansViews
use corebank_api.Api.Transactions as TransactionsViews
use corebank_api.Api.Users as UsersViews
use corebank_api.Services.Consistency.Branch.{branch_consistent}
use corebank_api.Services.Consistency.Customer.{customer_consistent}
use corebank_api.Services.Consistency.User.{user_consistent}
use corebank_api.Services.Consistency.Employee.{employee_consistent}
use corebank_api.Services.Consistency.Loan.{loan_consistent}
use corebank_api.Services.Consistency.LoanPayment.{loan_payment_consistent}
use corebank_api.Services.Consistency.Card.{card_consistent}
use corebank_api.Services.Consistency.Support.{support_consistent}
use corebank_api.Services.Consistency.CreditScore.{credit_score_consistent}
use corebank_api.Services.Consistency.Account.{account_consistent}
use corebank_api.Services.Consistency.Transaction.{transaction_consistent}
use corebank_api.Database.Consistency.Keeps.{Serves, Serves-fail, Serves-if}
use corebank_api.Database.Consistency.Whole.{IsConsistent}
use corebank_api.Database.Uow.{fail, World, Action}
use corebank_api.Security.{
  View, Credentials, verified, refused, jwt_required, admin_required, some_fields, respond,
}
use corebank_api.Services.Helpers.{Actor, is_admin}
use corebank_api.Database.Engine.{Engine}
use corebank_api.Prelude.{none, [], some, ◌∷◌, String, Option, ℕ, List}
use corebank_api.Api.Router.{accounts_get_all, Request, Answer, handle}
use corebank_api.Errors.{forbidden, bad_request, app}

module _ ⦃e : Engine⦄ where
  -- A view keeps the database consistent, whatever the credentials.
  record Replies {A : Type 0} (v : View A) : Type 0 where
    at : (c : Credentials) (w : World) → IsConsistent w.committed → IsConsistent (v c w).1.committed

  module _ {A : Type 0} (code : ℕ) (call : Actor → Action A) where
    jwt_required-Replies : ((a : Actor) → Serves (call a)) → Replies (jwt_required code call)
    unfolding jwt_required respond
    jwt_required-Replies k = record { at = answer }
      where
        answer :
            (c : Credentials) (w : World)
            → IsConsistent w.committed
            → IsConsistent (jwt_required code call c w).1.committed
        answer (verified actor) w h = (k actor).at w h
        answer (refused reason) w h = h

    admin_required-Replies : ((a : Actor) → Serves (call a)) → Replies (admin_required code call)
    unfolding admin_required jwt_required respond
    admin_required-Replies k = record { at = answer }
      where
        answer :
            (c : Credentials) (w : World)
            → IsConsistent w.committed
            → IsConsistent (admin_required code call c w).1.committed
        answer (verified actor) w h =
            (Serves-if (is_admin actor) (call actor)
                (fail (app forbidden "Administrator access required")) (k actor)
                (Serves-fail (app forbidden "Administrator access required"))).at
              w h
        answer (refused reason) w h = h

  some_fields-Serves :
      {A B : Type 0} (fields : List A) (m : Action B) → Serves m → Serves (some_fields fields m)
  unfolding some_fields
  some_fields-Serves [] m k = Serves-fail (app bad_request "No fields to update")
  some_fields-Serves (f ∷ fs) m k = k

  open_ticket-Serves :
      (owner : Option String) (employee_id issue id : String) (now : ℕ)
      → Serves (CustomerSupportViews.open_ticket owner employee_id issue id now)
  unfolding CustomerSupportViews.open_ticket
  open_ticket-Serves none employee_id issue id now = search Serves-fail
  open_ticket-Serves (some owner) employee_id issue id now =
      search (Serves-if, Serves-fail, support_consistent)

  ruleset views =
      (jwt_required-Replies, admin_required-Replies, some_fields-Serves, open_ticket-Serves)

  ruleset services = (
    branch_consistent, customer_consistent, user_consistent, employee_consistent, loan_consistent,
    loan_payment_consistent, card_consistent, support_consistent, credit_score_consistent,
    account_consistent, transaction_consistent,
  )

  handle-Replies : (r : Request) → Replies (handle r)
  unfolding handle Answer AccountsViews.get_all AccountsViews.post AccountsViews.get
      AccountsViews.delete AccountsViews.put_balance BranchesViews.get_all BranchesViews.post
      BranchesViews.get_conditions BranchesViews.get BranchesViews.put BranchesViews.delete
      CardsViews.get_all CardsViews.post CardsViews.get CardsViews.delete CardsViews.put_status
      CreditScoresViews.get_all CreditScoresViews.post CreditScoresViews.get CreditScoresViews.put
      CreditScoresViews.delete CustomersViews.get_all CustomersViews.post CustomersViews.get
      CustomersViews.put CustomersViews.delete CustomerSupportViews.get_all
      CustomerSupportViews.post CustomerSupportViews.get_top_resolvers CustomerSupportViews.get
      CustomerSupportViews.delete CustomerSupportViews.put_status EmployeesViews.get_all
      EmployeesViews.post EmployeesViews.get EmployeesViews.put EmployeesViews.delete
      LoanPaymentsViews.get_all LoanPaymentsViews.post LoanPaymentsViews.get_by_loan
      LoanPaymentsViews.get LoanPaymentsViews.delete LoansViews.get_all LoansViews.post
      LoansViews.get LoansViews.delete LoansViews.put_status TransactionsViews.get_all
      TransactionsViews.get TransactionsViews.delete TransactionsViews.get_by_account
      TransactionsViews.post_transfer TransactionsViews.get_high_value UsersViews.get_all
      UsersViews.post UsersViews.get UsersViews.put UsersViews.delete
  handle-Replies accounts_get_all = search (views, services)
  handle-Replies _ = search (views, services)

  -- The database after requests that are answered one after the other.
  abbrev pub serve : List (Request × Credentials) → World → World
  serve [] w = w
  serve ((r, c) ∷ rest) w = serve rest (handle r c w).1

  -- From a database in which every table has unique keys and rows that pass the CHECK, UNIQUE and
  -- FOREIGN KEY constraints, requests that are answered one after the other, whatever the requests,
  -- the credentials and the replies, lead to such a database.
  pub serve-IsConsistent :
      (requests : List (Request × Credentials)) (w : World)
      → IsConsistent w.committed
      → IsConsistent (serve requests w).committed
  serve-IsConsistent [] w h = h
  serve-IsConsistent ((r, c) ∷ rest) w h =
      serve-IsConsistent rest (handle r c w).1 ((handle-Replies r).at c w h)
