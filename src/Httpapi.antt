-- ===== src/Httpapi.antt =====
-- internal/httpapi: the HTTP interface over the current snapshot.
pub mod Auth
pub mod Reply
pub mod Server
pub mod Tags
pub mod Log
mod Tests
