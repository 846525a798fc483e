-- ===== src/Tests.antt =====
-- Runs of the code on concrete data, and the theorems at concrete inputs.
mod Data
mod Clocks
mod Graphs
mod Queues
mod Scopes
mod Replicas
mod Routers
mod Merges
mod Writes
mod Keys
mod Records
mod Streams
mod Relays
mod Exchanges
mod Owners
