-- ===== src/Tick.antt =====
-- `glb_tick` of src/libgilberta/gilberta.c. Its children have the packets that it handles, one
-- module for each group of branches, and the timers.
pub mod Common
pub mod Handshake
pub mod Teardown
pub mod Data
pub mod Keepalive
pub mod Timers
pub mod Receive
