-- ===== src/Transcripts.antt =====
-- The transcript worker: ai/transcripts/pipeline.py, and the retry of services/discrepancies.py.
pub mod Types
pub mod Claim
pub mod Marks
pub mod Segments
pub mod Ranges
pub mod Sweep
pub mod Stages
pub mod Process
pub mod Run
mod Tests
