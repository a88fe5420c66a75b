-- ===== src/Aggregates.antt =====
-- packages/agent/src/grackle/python_runtime/aggregates.py:
-- the hit index, the weight prefix sums and the first-seen index over a trace file, and their queries.
pub mod Event
pub mod Tables
pub mod Build
pub mod Query
pub mod Model
pub mod Kept
pub mod Heat
pub mod Scan
pub mod Coverage
pub mod TopK
pub mod Seekable
pub mod Tests
