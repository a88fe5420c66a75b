-- ===== src/Recording.antt =====
-- packages/agent/src/grackle/python_runtime/writer.py and recording_sink.py: a trace written event by
-- event, and the recording of a live session.
pub mod Part
pub mod Sink
pub mod Salvage
pub mod Finalize
pub mod Lines
pub mod Rows
pub mod Register
pub mod Agree
pub mod SafeId
mod Tests
