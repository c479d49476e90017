-- ===== src/Domain.antt =====
-- backend/app/domain: the vocabulary, the record shapes and the control kernel.
pub mod Enums
pub mod Models
pub mod Control
