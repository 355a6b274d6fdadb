-- ===== src/Powercap.antt =====
-- src/plugins/pwr_powercap.c: the plugin for the energy counters of Linux's powercap files.
pub mod Paths
pub mod Zones
pub mod Energy
pub mod Release
pub mod Suffixes
pub mod Counts
pub mod Totals
pub mod Frees
