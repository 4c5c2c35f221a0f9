-- ===== src/Handler.antt =====
-- src/ProcessHandler.cpp and its interface.
pub mod Types
pub mod Accounts
pub mod Registry
pub mod Signals
pub mod Output
pub mod Events
pub mod Start
pub mod Descriptors
pub mod Loop
pub mod Refinement
