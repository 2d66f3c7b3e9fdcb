-- ===== src/Services.antt =====
-- app/services: the business rules, which own the transaction boundary.
pub mod Helpers
pub mod Guarded
pub mod Consistency
pub mod Transaction
pub mod Account
pub mod Customer
pub mod User
pub mod Auth
pub mod Branch
pub mod Employee
pub mod Loan
pub mod LoanPayment
pub mod Card
pub mod Support
pub mod CreditScore
