-- ===== src/Server.antt =====
-- The server of the explorer: blockchain-explorer/app.
pub mod Exceptions
pub mod Http
pub mod Users
pub mod Ledger
pub mod Routes
pub mod Sessions
