-- ===== src/Policy.antt =====
-- backend/app/policy: normalization, the temporary profile and the evaluator.
pub mod Facts
pub mod Profile
pub mod Normalization
pub mod Evaluator
