-- ===== src/Http.antt =====
-- transport/http.py: the client's side of the HTTP transport.
pub mod Routes
pub mod Settings
pub mod Waiting
pub mod Client
