-- ===== src/Services/Consistency.antt =====
-- The operations of app/services keep the whole database consistent.
pub mod Branch
pub mod Customer
pub mod User
pub mod Employee
pub mod Loan
pub mod LoanPayment
pub mod Card
pub mod Support
pub mod CreditScore
pub mod Account
pub mod Transaction
