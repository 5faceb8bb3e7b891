-- ===== src/Store.antt =====
-- core/persistence/message_writer.py and core/tools/artifact_reader.py: the tables that the harness
-- projects a run into, and the code that writes and reads them.
pub mod Chat
pub mod Stopped
pub mod Files
pub mod Artifacts
mod Samples
