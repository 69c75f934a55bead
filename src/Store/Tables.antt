-- ===== src/Store/Tables.antt =====
-- blockchain-explorer/client/src/state/redux/tables
pub mod Types
pub mod Reducers
pub mod Actions
pub mod Selectors
