-- ===== src/Ticketbutler.antt =====
-- internal/ticketbutler: the orders payload and the client that fetches it.
pub mod Types
pub mod Tags
pub mod Client
pub mod Tests
