-- ===== src/Tests.antt =====
-- The theorems applied to concrete data, and the data.
pub mod Codec
pub mod QueueRuns
pub mod Contexts
pub mod Links
pub mod Networks
pub mod Repeats
pub mod Connections
pub mod Packets
pub mod Invariants
pub mod Ticks
pub mod Accounts
pub mod Handshakes
pub mod Closings
pub mod Echoes
