-- ===== src/Supervisor.antt =====
-- supervisor/: the session types and the conversation graph.
pub mod Session
pub mod Graph
