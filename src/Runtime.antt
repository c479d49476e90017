-- ===== src/Runtime.antt =====
-- The process of backend/app: its settings, the engine that it keeps, the health probe, and its start.
pub mod Settings
pub mod Process
pub mod Loaded
pub mod Cached
pub mod Health
pub mod Startup
pub mod Session
pub mod Calls
pub mod Answers
