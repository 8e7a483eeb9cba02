-- ===== src/Http.antt =====
-- frontend/src/lib/api-client.ts and frontend/src/lib/api-errors.ts: how the client talks to the server
-- and what it says of a failure. `fetch` is a parameter.
pub mod Json
pub mod Fetch
pub mod Client
pub mod Messages
mod Tests
