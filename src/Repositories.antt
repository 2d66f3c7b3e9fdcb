-- ===== src/Repositories.antt =====
-- app/repositories: every SQL statement of the program.
pub mod Accounts
pub mod Transactions
pub mod Customers
pub mod Users
pub mod Branches
pub mod Employees
pub mod Loans
pub mod LoanPayments
pub mod Cards
pub mod SupportTickets
pub mod CreditScores
