-- ===== src/Tests.antt =====
-- The properties at concrete inputs, and the inputs.
mod Blocking
mod Samples
mod Schemas
mod Messages
mod Requests
mod Service
mod Sessions
mod Settings
mod Sources
mod Publish
mod Streams
mod Waiting
