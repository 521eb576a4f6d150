-- ===== src/Discrepancies.antt =====
-- The table minutes_discrepancies: the admin actions of services/discrepancies.py and the
-- re-comparison of ai/transcripts/compare.py.
pub mod Types
pub mod Citations
pub mod Approval
pub mod Recompare
pub mod Gate
mod Tests
