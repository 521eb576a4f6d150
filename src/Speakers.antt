-- ===== src/Speakers.antt =====
-- ai/transcripts/speakers.py: what the model's assignments of clusters to people are worth, and how
-- they are written.
pub mod Types
pub mod RollCall
pub mod Confidence
pub mod Write
mod Tests
