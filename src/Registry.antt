-- ===== src/Registry.antt =====
-- registry.py: what the box can serve, and what it is serving.
pub mod Catalogue
pub mod Live
