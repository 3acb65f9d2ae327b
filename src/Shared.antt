-- ===== src/Shared.antt =====
-- What all servicers share (packages/pynumaflow/pynumaflow/shared, _constants.py).
pub mod Queue
pub mod Server
pub mod Proto
pub mod MapProto
pub mod Batches
pub mod Interleave
pub mod Workers
pub mod Managers
pub mod Streams
