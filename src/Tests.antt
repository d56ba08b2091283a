-- ===== src/Tests.antt =====
-- Runs of the components on concrete inputs.
mod Queues
mod Tasks
mod Batches
mod Menus
mod Pool
mod Hashes
mod Bytes
mod Lookups
mod Texts
mod Threads
mod Clocks
mod Idle
mod Drives
mod Hosts
mod Utilities
mod Drain
mod Calls
mod Processors
