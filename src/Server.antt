-- ===== src/Server.antt =====
-- live_server.py: the console's HTTP server.
pub mod Desk
pub mod Post
pub mod Send
pub mod Chrome
pub mod Get
