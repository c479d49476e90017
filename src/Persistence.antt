-- ===== src/Persistence.antt =====
-- backend/app/persistence: the rows, the repository's queries and the session that writes.
pub mod Rows
pub mod Repository
pub mod Engine
pub mod Added
pub mod Appended
pub mod Untouched
pub mod Widths
