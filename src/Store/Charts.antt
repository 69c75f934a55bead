-- ===== src/Store/Charts.antt =====
-- blockchain-explorer/client/src/state/redux/charts
pub mod Types
pub mod Reducers
pub mod Actions
pub mod Selectors
