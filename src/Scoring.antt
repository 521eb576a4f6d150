-- ===== src/Scoring.antt =====
-- ai/floors.py, ai/reconcile.py and the models of ai/extraction_schema.py, ai/rewrite_schema.py.
pub mod Facts
pub mod Patterns
pub mod Floors
pub mod Reconcile
mod Tests
