-- ===== src/Application.antt =====
-- backend/app/application: the services that read and write traces.
pub mod Views
pub mod Messages
pub mod Replay
pub mod History
pub mod Sound
pub mod Fingerprint
pub mod ControlDeck
pub mod Chain
pub mod Widths
pub mod Runs
