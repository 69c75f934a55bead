-- ===== src/Components.antt =====
-- Components with a state of their own: blockchain-explorer/client/src/components.
pub mod Register
pub mod Login
pub mod Blocks
