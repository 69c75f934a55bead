-- ===== src/Store/Auth.antt =====
-- blockchain-explorer/client/src/state/redux/auth
pub mod Types
pub mod Reducers
pub mod Actions
pub mod Selectors
