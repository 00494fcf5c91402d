-- ===== src/Tests.antt =====
-- The theorems at concrete inputs, and runs of the definitions.
mod Structs
mod Buffers
mod Jobs
mod Leases
mod Services
mod Messages
mod Executors
mod Servers
mod Tasks
mod Buses
mod Priorities
mod Collections
mod Arguments
mod Drivers
