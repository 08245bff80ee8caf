-- ===== src/Tests.antt =====
-- The theorems at concrete inputs, and runs of the definitions.
mod Paths
mod Bindings
mod Canonical
mod Queues
mod Semaphores
mod Waits
mod Filters
mod Ports
mod Heaps
mod Identities
mod Execs
mod Chains
mod Scripts
