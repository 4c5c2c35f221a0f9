-- ===== src/Child.antt =====
-- src/ChildProcess.cpp and its interface.
pub mod Types
pub mod Lifecycle
pub mod Env
pub mod Tty
pub mod Fork
pub mod Caps
pub mod Samples
pub mod Trials
