-- ===== src/Metrics.antt =====
-- engine_metrics.py: what the serving engine does right now.
pub mod Reals
pub mod Names
pub mod Parse
pub mod Stream
pub mod Grid
pub mod Prom
pub mod Recent
pub mod Series
pub mod Card
pub mod Block
