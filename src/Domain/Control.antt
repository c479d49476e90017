-- ===== src/Domain/Control.antt =====
-- backend/app/domain/control.py: the Control Deck's state kernel.
pub mod Vocabulary
pub mod Reduce
pub mod Plan
pub mod Prefix
pub mod Live
pub mod Deck
pub mod Reversal
pub mod History
pub mod Order
