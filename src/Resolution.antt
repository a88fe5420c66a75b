-- ===== src/Resolution.antt =====
-- packages/agent/src/grackle/adapters/runtime_resolution.py, and the resolvers of python_runtime, go_runtime
-- and rust_runtime: from a source position to a node of the static graph.
pub mod Index
pub mod Resolve
pub mod Claims
pub mod Enclosing
pub mod Nodes
pub mod Cache
mod Tests
