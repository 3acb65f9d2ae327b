-- ===== src/Tests.antt =====
-- The theorems at concrete inputs that meet their hypotheses.
pub mod Fixtures
mod ReduceTests
mod BatchTests
mod WorkerTests
mod WorkerErrorTests
mod SourceTests
mod AccumulatorTests
mod StreamTests
mod StreamErrorTests
mod ServerTests
mod StartTests
mod ErrorTests
mod ReduceStreamTests
