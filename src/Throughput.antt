-- ===== src/Throughput.antt =====
-- run_throughput.py: the throughput of the run that is in progress.
pub mod Rows
pub mod Compute
pub mod RunDir
