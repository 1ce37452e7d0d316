-- ===== src/Soak.antt =====
-- load_soak.py: a mixed load on the serving engine, with a telemetry thread beside the workers.
pub mod State
pub mod Prompts
pub mod Worker
pub mod Telemetry
pub mod Readings
pub mod Phases
pub mod Events
pub mod Ledger
pub mod Lengths
pub mod Measured
pub mod Agrees
