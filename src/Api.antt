-- ===== src/Api.antt =====
-- api/main.py: the HTTP endpoints of the backend.
pub mod StreamHistory
pub mod ChatEvents
pub mod Chat
pub mod TextChat
