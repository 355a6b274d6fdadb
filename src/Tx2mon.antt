-- ===== src/Tx2mon.antt =====
-- src/plugins/pwr_tx2mon.c: the plugin for the monitor of the ThunderX2, with the thread that samples
-- energy.
pub mod Region
pub mod Registry
pub mod Read
pub mod Sampling
pub mod Sockets
pub mod Registered
pub mod Frames
pub mod Thread
pub mod Steps
pub mod Cores
