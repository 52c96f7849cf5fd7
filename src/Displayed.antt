-- ===== src/Displayed.antt =====
-- What the user sees of the changes of the balance: minotari/src/transactions/
-- displayed_transaction_processor, with theorems on the search for the inputs of a payment.
pub mod Subset
pub mod Search
pub mod Choices
pub mod Solutions
pub mod Builder
pub mod Transactions
pub mod Matching
pub mod Inputs
pub mod Processor
pub mod Indices
pub mod Measures
pub mod Shown
pub mod Conserved
pub mod Balanced
pub mod Total
pub mod Made
