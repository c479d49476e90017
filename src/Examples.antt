-- ===== src/Examples.antt =====
-- Runs on concrete inputs, and each theorem at an input that meets its hypotheses.
mod Text
mod Control
mod Policy
mod Services
mod Controls
mod Endpoints
mod Runs
mod Widths
mod Fingerprint
mod Migrations
mod Runtime
