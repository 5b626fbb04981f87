-- ===== src/Examples.antt =====
-- Concrete inputs, at which the theorems are applied.
mod Vectors
mod Queues
mod Tasks
mod Packets
mod Clients
mod Servers
mod Json
mod Loops
mod Controls
mod Outputs
mod Parsed
