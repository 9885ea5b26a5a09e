-- ===== src/Caster.antt =====
-- src/caster.py, one module for each class or group of methods.
pub mod ByteQueue
pub mod Hub
pub mod Send
pub mod Server
pub mod Source
pub mod Audit
pub mod Events
pub mod Admin
pub mod Reading
pub mod Routes
pub mod Load
