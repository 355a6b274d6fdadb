-- ===== src/Apm.antt =====
-- src/plugins/pwr_apmdev.c: the plugin for AMD's application power management.
pub mod Fields
pub mod Device
pub mod Scan
pub mod Read
pub mod Signs
pub mod Nodes
pub mod Ranges
