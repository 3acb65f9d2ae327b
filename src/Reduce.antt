-- ===== src/Reduce.antt =====
-- The reducer (packages/pynumaflow/pynumaflow/reducer): keyed windows, their tasks, and the rpc.
pub mod Handler
pub mod Server
pub mod Keys
pub mod TaskManager
pub mod Servicer
