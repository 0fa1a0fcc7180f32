-- ===== src/Persistence.antt =====
-- persistence: what is kept in the database.
pub mod ChatStore
pub mod TurnRecord
