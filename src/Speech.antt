-- ===== src/Speech.antt =====
-- speech/: what is checked before audio leaves for the speech services, and how text is cut for them.
pub mod Audio
pub mod Chunker
