-- ===== src/Tests.antt =====
-- Concrete instances of the parameters, and the theorems at concrete inputs.
mod Reference
mod Sample
mod Slices
mod Replies
mod Sessions
mod Forms
mod UserTable
mod Users
mod Ledger
mod Routes
mod Sessioned
