-- ===== src/Dispatcher.antt =====
-- dispatcher.py: the executor of queued jobs.
pub mod Clock
pub mod Doc
pub mod Session
pub mod Status
pub mod Switch
pub mod Queue
pub mod Eval
pub mod Download
pub mod Finish
pub mod Restore
pub mod Main
pub mod Steady
pub mod Writes
pub mod Frame
