-- ===== src/Operations.antt =====
-- The operations of the client's store.
pub mod Effects
pub mod Charts
pub mod Tables
pub mod Auth
