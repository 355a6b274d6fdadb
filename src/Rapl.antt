-- ===== src/Rapl.antt =====
-- src/plugins/pwr_rapldev.c: the plugin for Intel's RAPL registers.
pub mod Msr
pub mod Device
pub mod Packages
pub mod Gather
pub mod Read
pub mod Fields
pub mod Limits
pub mod Counting
pub mod Starting
pub mod Registers
pub mod Energy
