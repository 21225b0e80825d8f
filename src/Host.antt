-- ===== src/Host.antt =====
-- session.py: the embedded session over the native one. `N` is the state of the native session.
pub mod Native
pub mod Tables
pub mod Explain
pub mod Quoting
