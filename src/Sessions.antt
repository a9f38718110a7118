-- ===== src/Sessions.antt =====
-- The sessions of broker/persistence/sessions: `Session` (session.go), `memProvider`
-- (memsessions.go), the provider registry and `Manager` (sessions.go), and `getSession` of
-- broker/session.go, their client.
pub mod Session
pub mod Store
pub mod Manager
pub mod Managed
pub mod Reconnect
pub mod Laws
pub mod Topics
pub mod Pointers
