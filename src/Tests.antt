-- ===== src/Tests.antt =====
-- Runs of the model on concrete values: a small JSON library, and the theorems at concrete inputs.
pub mod Toy
mod Storages
mod Registries
pub mod Messages
pub mod Clients
pub mod Remotes
mod Sessions
pub mod Pipelines
mod PipelineRuns
mod Threads
mod Calculators
mod Transports
mod Shutdowns
mod NodeThreads
mod SinkNodes
mod Deadlocks
mod ClientThreads
mod Noexcept
mod Links
mod Unlinks
mod Properties
