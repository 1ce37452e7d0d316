-- ===== src/Core.antt =====
-- console_core.py: what the web process and the dispatcher share.
pub mod Floats
pub mod Config
pub mod Token
pub mod Disk
pub mod Jobs
pub mod JobId
pub mod Hub
