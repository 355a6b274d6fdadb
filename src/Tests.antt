-- ===== src/Tests.antt =====
-- Concrete runs of the models: the theorems of the other modules at inputs where their hypotheses hold.
mod Fixtures
mod RaplRuns
mod ApmRuns
mod MetaRuns
mod ObjectRuns
mod PowercapRuns
mod FileRuns
mod CpuRuns
mod TxRuns
mod IpmiRuns
mod WireRuns
mod RouterRuns
mod ClientRuns
