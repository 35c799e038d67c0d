-- ===== src/Examples.antt =====
-- The theorems of the other modules, each applied at a concrete input.
mod Lists
mod Queues
mod Times
mod Shards
mod Caches
mod Wires
mod Nodes
