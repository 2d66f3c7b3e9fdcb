-- ===== src/Api/Router/Access.antt =====
-- Which requests of app/api a principal may make.
use corebank_api.Prelude.{refl, false, ◌≡◌, true, Bool}
use corebank_api.Database.Engine.{Engine}
use corebank_api.Api.Router.{
  Request, handle, accounts_delete, accounts_get, accounts_get_all, accounts_post,
  accounts_put_balance, branches_delete, branches_get, branches_get_all, branches_get_conditions,
  branches_post, branches_put, cards_delete, cards_get, cards_get_all, cards_post, cards_put_status,
  credit_scores_delete, credit_scores_get, credit_scores_get_all, credit_scores_post,
  credit_scores_put, customer_support_delete, customer_support_get, customer_support_get_all,
  customer_support_get_top_resolvers, customer_support_post, customer_support_put_status,
  customers_delete, customers_get, customers_get_all, customers_post, customers_put,
  employees_delete, employees_get, employees_get_all, employees_post, employees_put,
  loan_payments_delete, loan_payments_get, loan_payments_get_all, loan_payments_get_by_loan,
  loan_payments_post, loans_delete, loans_get, loans_get_all, loans_post, loans_put_status,
  transactions_delete, transactions_get, transactions_get_all, transactions_get_by_account,
  transactions_get_high_value, transactions_post_transfer, users_delete, users_get, users_get_all,
  users_post, users_put,
}
use corebank_api.Security.{
  jwt_envelope, jwt_message, verified, failure, refused, JwtFailure, jwt_required, admin_required,
}
use corebank_api.Services.Helpers.{is_admin, Actor}
use corebank_api.Database.Uow.{World}

-- The views that any principal may ask for: each looks at the owner of what is asked for.
unfoldable pub is_open : Request → Bool
is_open accounts_get_all = true
is_open (accounts_get _) = true
is_open (cards_get _) = true
is_open (cards_put_status _ _) = true
is_open (credit_scores_get _) = true
is_open (customers_get _) = true
is_open (customers_put _ _) = true
is_open (customer_support_post _ _ _ _ _) = true
is_open (customer_support_get _) = true
is_open (loans_get _) = true
is_open (transactions_get _) = true
is_open (transactions_get_by_account _) = true
is_open (transactions_post_transfer _ _ _ _ _) = true
is_open _ = false

module _ ⦃e : Engine⦄ where
  -- Without a valid token no request of a blueprint has any effect: it is answered 401, with the
  -- message for the kind of failure.
  pub handle-refused :
      (r : Request) (reason : JwtFailure) (w : World)
      → handle r (refused reason) w ≡ (failure 401 (jwt_message reason), w)
  unfolding handle jwt_required admin_required jwt_envelope
  handle-refused accounts_get_all reason w = refl
  handle-refused (accounts_post _ _ _ _ _) reason w = refl
  handle-refused (accounts_get _) reason w = refl
  handle-refused (accounts_delete _) reason w = refl
  handle-refused (accounts_put_balance _ _) reason w = refl
  handle-refused branches_get_all reason w = refl
  handle-refused (branches_post _ _) reason w = refl
  handle-refused (branches_get_conditions _ _) reason w = refl
  handle-refused (branches_get _) reason w = refl
  handle-refused (branches_put _ _) reason w = refl
  handle-refused (branches_delete _) reason w = refl
  handle-refused cards_get_all reason w = refl
  handle-refused (cards_post _ _) reason w = refl
  handle-refused (cards_get _) reason w = refl
  handle-refused (cards_delete _) reason w = refl
  handle-refused (cards_put_status _ _) reason w = refl
  handle-refused credit_scores_get_all reason w = refl
  handle-refused (credit_scores_post _ _) reason w = refl
  handle-refused (credit_scores_get _) reason w = refl
  handle-refused (credit_scores_put _ _) reason w = refl
  handle-refused (credit_scores_delete _) reason w = refl
  handle-refused customers_get_all reason w = refl
  handle-refused (customers_post _ _) reason w = refl
  handle-refused (customers_get _) reason w = refl
  handle-refused (customers_put _ _) reason w = refl
  handle-refused (customers_delete _) reason w = refl
  handle-refused customer_support_get_all reason w = refl
  handle-refused (customer_support_post _ _ _ _ _) reason w = refl
  handle-refused customer_support_get_top_resolvers reason w = refl
  handle-refused (customer_support_get _) reason w = refl
  handle-refused (customer_support_delete _) reason w = refl
  handle-refused (customer_support_put_status _ _ _) reason w = refl
  handle-refused employees_get_all reason w = refl
  handle-refused (employees_post _ _) reason w = refl
  handle-refused (employees_get _) reason w = refl
  handle-refused (employees_put _ _) reason w = refl
  handle-refused (employees_delete _) reason w = refl
  handle-refused loan_payments_get_all reason w = refl
  handle-refused (loan_payments_post _ _ _) reason w = refl
  handle-refused (loan_payments_get_by_loan _) reason w = refl
  handle-refused (loan_payments_get _) reason w = refl
  handle-refused (loan_payments_delete _) reason w = refl
  handle-refused loans_get_all reason w = refl
  handle-refused (loans_post _ _) reason w = refl
  handle-refused (loans_get _) reason w = refl
  handle-refused (loans_delete _) reason w = refl
  handle-refused (loans_put_status _ _) reason w = refl
  handle-refused transactions_get_all reason w = refl
  handle-refused (transactions_get _) reason w = refl
  handle-refused (transactions_delete _) reason w = refl
  handle-refused (transactions_get_by_account _) reason w = refl
  handle-refused (transactions_post_transfer _ _ _ _ _) reason w = refl
  handle-refused (transactions_get_high_value _) reason w = refl
  handle-refused users_get_all reason w = refl
  handle-refused (users_post _ _ _ _ _ _ _) reason w = refl
  handle-refused (users_get _) reason w = refl
  handle-refused (users_put _ _ _ _) reason w = refl
  handle-refused (users_delete _) reason w = refl

  -- For a principal that is no administrator, a request to any view but the thirteen of `is_open` is
  -- answered 403 and has no effect.
  pub handle_forbidden :
      (r : Request) (actor : Actor) (w : World)
      → is_admin actor ≡ false
      → is_open r ≡ false
      → handle r (verified actor) w ≡ (failure 403 "Administrator access required", w)
  unfolding handle is_open
  handle_forbidden accounts_get_all actor w plain closed = cc
  handle_forbidden (accounts_post _ _ _ _ _) actor w plain closed = rw plain
  handle_forbidden (accounts_get _) actor w plain closed = cc
  handle_forbidden (accounts_delete _) actor w plain closed = rw plain
  handle_forbidden (accounts_put_balance _ _) actor w plain closed = rw plain
  handle_forbidden branches_get_all actor w plain closed = rw plain
  handle_forbidden (branches_post _ _) actor w plain closed = rw plain
  handle_forbidden (branches_get_conditions _ _) actor w plain closed = rw plain
  handle_forbidden (branches_get _) actor w plain closed = rw plain
  handle_forbidden (branches_put _ _) actor w plain closed = rw plain
  handle_forbidden (branches_delete _) actor w plain closed = rw plain
  handle_forbidden cards_get_all actor w plain closed = rw plain
  handle_forbidden (cards_post _ _) actor w plain closed = rw plain
  handle_forbidden (cards_get _) actor w plain closed = cc
  handle_forbidden (cards_delete _) actor w plain closed = rw plain
  handle_forbidden (cards_put_status _ _) actor w plain closed = cc
  handle_forbidden credit_scores_get_all actor w plain closed = rw plain
  handle_forbidden (credit_scores_post _ _) actor w plain closed = rw plain
  handle_forbidden (credit_scores_get _) actor w plain closed = cc
  handle_forbidden (credit_scores_put _ _) actor w plain closed = rw plain
  handle_forbidden (credit_scores_delete _) actor w plain closed = rw plain
  handle_forbidden customers_get_all actor w plain closed = rw plain
  handle_forbidden (customers_post _ _) actor w plain closed = rw plain
  handle_forbidden (customers_get _) actor w plain closed = cc
  handle_forbidden (customers_put _ _) actor w plain closed = cc
  handle_forbidden (customers_delete _) actor w plain closed = rw plain
  handle_forbidden customer_support_get_all actor w plain closed = rw plain
  handle_forbidden (customer_support_post _ _ _ _ _) actor w plain closed = cc
  handle_forbidden customer_support_get_top_resolvers actor w plain closed = rw plain
  handle_forbidden (customer_support_get _) actor w plain closed = cc
  handle_forbidden (customer_support_delete _) actor w plain closed = rw plain
  handle_forbidden (customer_support_put_status _ _ _) actor w plain closed = rw plain
  handle_forbidden employees_get_all actor w plain closed = rw plain
  handle_forbidden (employees_post _ _) actor w plain closed = rw plain
  handle_forbidden (employees_get _) actor w plain closed = rw plain
  handle_forbidden (employees_put _ _) actor w plain closed = rw plain
  handle_forbidden (employees_delete _) actor w plain closed = rw plain
  handle_forbidden loan_payments_get_all actor w plain closed = rw plain
  handle_forbidden (loan_payments_post _ _ _) actor w plain closed = rw plain
  handle_forbidden (loan_payments_get_by_loan _) actor w plain closed = rw plain
  handle_forbidden (loan_payments_get _) actor w plain closed = rw plain
  handle_forbidden (loan_payments_delete _) actor w plain closed = rw plain
  handle_forbidden loans_get_all actor w plain closed = rw plain
  handle_forbidden (loans_post _ _) actor w plain closed = rw plain
  handle_forbidden (loans_get _) actor w plain closed = cc
  handle_forbidden (loans_delete _) actor w plain closed = rw plain
  handle_forbidden (loans_put_status _ _) actor w plain closed = rw plain
  handle_forbidden transactions_get_all actor w plain closed = rw plain
  handle_forbidden (transactions_get _) actor w plain closed = cc
  handle_forbidden (transactions_delete _) actor w plain closed = rw plain
  handle_forbidden (transactions_get_by_account _) actor w plain closed = cc
  handle_forbidden (transactions_post_transfer _ _ _ _ _) actor w plain closed = cc
  handle_forbidden (transactions_get_high_value _) actor w plain closed = rw plain
  handle_forbidden users_get_all actor w plain closed = rw plain
  handle_forbidden (users_post _ _ _ _ _ _ _) actor w plain closed = rw plain
  handle_forbidden (users_get _) actor w plain closed = rw plain
  handle_forbidden (users_put _ _ _ _) actor w plain closed = rw plain
  handle_forbidden (users_delete _) actor w plain closed = rw plain
