-- ===== src/Models.antt =====
-- transport/models.py: the JSON forms of the values that client and server exchange. JSON is taken
-- as values; the text between (json.dumps, json.loads) is the standard library's.
pub mod Checks
pub mod Identifiers
pub mod Paths
pub mod Queries
pub mod Indexes
pub mod Statuses
pub mod Registration
