-- ===== src/Cpu.antt =====
-- src/plugins/pwr_cpudev.c: the plugin for the processors' own files.
pub mod Frequencies
pub mod Device
pub mod Words
pub mod Listing
pub mod Growing
pub mod Offered
