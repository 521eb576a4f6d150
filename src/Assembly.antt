-- ===== src/Assembly.antt =====
-- ai/transcripts/compare.py: build_rows, from the candidates, the verdicts and the hunter's findings
-- to the rows that reconcile takes.
pub mod Types
pub mod Nearest
pub mod Rows
pub mod Hunted
pub mod Build
mod Tests
