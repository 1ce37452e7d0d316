-- ===== src/Live.antt =====
-- live_metrics.py: the document of /api/live.
pub mod PromText
pub mod Spec
pub mod Boxes
pub mod Sparks
pub mod Doc
