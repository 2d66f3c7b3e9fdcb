-- ===== src/Api.antt =====
-- The views of app/api, a module for each blueprint. A view has its data as arguments, after the
-- schema of the blueprint has let them pass.
pub mod Accounts
pub mod Auth
pub mod Branches
pub mod Cards
pub mod CreditScores
pub mod Customers
pub mod CustomerSupport
pub mod Employees
pub mod Health
pub mod LoanPayments
pub mod Loans
pub mod Transactions
pub mod Users
pub mod Router
pub mod Schemas
