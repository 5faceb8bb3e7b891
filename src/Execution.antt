-- ===== src/Execution.antt =====
-- core/execution: one turn of an agent's graph, from its input to its end. The graph is LangGraph's,
-- a parameter; the code here turns the graph's events into calls of the publisher, rows of the
-- tables, and reports.
pub mod State
pub mod World
pub mod Messages
pub mod Handlers
pub mod Tools
pub mod Turn
pub mod Resume
mod Samples
