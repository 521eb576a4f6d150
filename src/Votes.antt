-- ===== src/Votes.antt =====
-- analysis/vote_matcher.py: which agenda items a vote is attached to.
pub mod Types
pub mod Cues
pub mod Links
pub mod Words
pub mod Tiers
pub mod Match
pub mod Reparse
pub mod Meeting
pub mod Rematch
mod Tests
