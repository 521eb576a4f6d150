-- ===== src/Guard.antt =====
-- ai/transcripts/guard.py: a quotation counts only where it is found in the text it cites.
pub mod Normalize
pub mod Statute
pub mod Find
mod Tests
