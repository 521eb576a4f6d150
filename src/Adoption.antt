-- ===== src/Adoption.antt =====
-- services/minutes_adoption.py and analysis/minutes_approval.py.
pub mod Types
pub mod Tokens
pub mod Parse
pub mod Sweep
mod Tests
