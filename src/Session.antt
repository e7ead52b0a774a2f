-- ===== src/Session.antt =====
-- session: what the library adds to ADK sessions.
pub mod Rewind
