-- ===== src/History.antt =====
-- history_collector.py: the index of what the runs left on disk.
pub mod Rates
pub mod Runs
pub mod Types
pub mod Collect
