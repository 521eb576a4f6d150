-- ===== src/Badges.antt =====
-- ai/badges_process.py, ai/badges_policy.py and the commit of ai/pipeline.py that writes badges.
pub mod Types
pub mod Process
pub mod Policy
pub mod Write
mod Tests
