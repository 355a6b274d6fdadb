-- ===== src/Xtpm.antt =====
-- src/plugins/pwr_xtpmdev.c: the plugin for Cray's power counters.
pub mod Device
pub mod Generations
