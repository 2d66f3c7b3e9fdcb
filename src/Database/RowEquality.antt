-- ===== src/Database/RowEquality.antt =====
-- Equality of rows is decidable: an UPDATE counts a row as changed only when it differs.
use native.Mathlib.Decide.{ℕ_discrete}
use corebank_api.Prelude.{String-discrete}
use corebank_api.Database.Schema.{
  Customer, User, Branch, Account, Loan, LoanPayment, Employee, Card, Transaction, SupportTicket,
  CreditScore,
}

unfoldable pub Customer-discrete : Discrete Customer
unfolding String-discrete ℕ_discrete
Customer-discrete = hlevel (ℕ_discrete, String-discrete)

unfoldable pub User-discrete : Discrete User
unfolding String-discrete ℕ_discrete
User-discrete = hlevel (ℕ_discrete, String-discrete)

unfoldable pub Branch-discrete : Discrete Branch
unfolding String-discrete ℕ_discrete
Branch-discrete = hlevel (ℕ_discrete, String-discrete)

unfoldable pub Account-discrete : Discrete Account
unfolding String-discrete ℕ_discrete
Account-discrete = hlevel (ℕ_discrete, String-discrete)

unfoldable pub Loan-discrete : Discrete Loan
unfolding String-discrete ℕ_discrete
Loan-discrete = hlevel (ℕ_discrete, String-discrete)

unfoldable pub LoanPayment-discrete : Discrete LoanPayment
unfolding String-discrete ℕ_discrete
LoanPayment-discrete = hlevel (ℕ_discrete, String-discrete)

unfoldable pub Employee-discrete : Discrete Employee
unfolding String-discrete ℕ_discrete
Employee-discrete = hlevel (ℕ_discrete, String-discrete)

unfoldable pub Card-discrete : Discrete Card
unfolding String-discrete ℕ_discrete
Card-discrete = hlevel (ℕ_discrete, String-discrete)

unfoldable pub Transaction-discrete : Discrete Transaction
unfolding String-discrete ℕ_discrete
Transaction-discrete = hlevel (ℕ_discrete, String-discrete)

unfoldable pub SupportTicket-discrete : Discrete SupportTicket
unfolding String-discrete ℕ_discrete
SupportTicket-discrete = hlevel (ℕ_discrete, String-discrete)

unfoldable pub CreditScore-discrete : Discrete CreditScore
unfolding String-discrete ℕ_discrete
CreditScore-discrete = hlevel (ℕ_discrete, String-discrete)
