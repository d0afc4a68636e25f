-- ===== src/Engine.antt =====
-- include/proximight/pmx_engine.h and src/core/pmx_engine.c: decisions, events and the watch.
pub mod Resolve
pub mod Complete
pub mod Order
pub mod Removal
pub mod Watch
pub mod Lost
mod Tests
pub mod Ring
pub mod Recent
pub mod Inbox
pub mod Pump
