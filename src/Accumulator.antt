-- ===== src/Accumulator.antt =====
-- The accumulator (packages/pynumaflow/pynumaflow/accumulator): the tasks, one for each list of keys
-- until it is closed, and what a task writes to the queue of all results.
pub mod Handler
pub mod Server
pub mod TaskManager
pub mod Watermarks
pub mod Servicer
