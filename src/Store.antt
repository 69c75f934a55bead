-- ===== src/Store.antt =====
-- blockchain-explorer/client/src/state: the reducers, the actions and the selectors of the client's
-- store.
pub mod Auth
pub mod Charts
pub mod Tables
pub mod Theme
pub mod Root
