-- ===== src/Server.antt =====
-- server/app.py: the request handlers.
pub mod Routes
pub mod Requests
pub mod Service
pub mod Tables
pub mod Indexes
pub mod Queries
