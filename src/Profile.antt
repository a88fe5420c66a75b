-- ===== src/Profile.antt =====
-- packages/agent/src/grackle/node_runtime/profile_reconstruct.py: a call/return stream from a V8 CPU
-- sampling profile.
pub mod Tree
pub mod Stream
pub mod Climb
pub mod Labels
pub mod Replay
pub mod Balance
pub mod Cached
mod Tests
