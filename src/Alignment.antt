-- ===== src/Alignment.antt =====
-- ai/transcripts/aligner.py: the pairing of the two event timelines.
pub mod Types
pub mod Consent
pub mod Grouping
pub mod Results
pub mod Details
pub mod Notes
pub mod Pairing
pub mod Sequence
pub mod Votes
pub mod Align
mod Tests
