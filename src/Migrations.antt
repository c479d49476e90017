-- ===== src/Migrations.antt =====
-- backend/alembic: the schema of the temporary history, as its revisions build it.
pub mod Schema
pub mod Operations
pub mod TemporaryHistory
pub mod ControlDeck
pub mod Names
pub mod Constraints
pub mod Frame
pub mod Declared
pub mod Upgrade
pub mod Statements
pub mod Immutable
pub mod Checked
pub mod Environment
