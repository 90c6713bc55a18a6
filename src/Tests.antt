-- ===== src/Tests.antt =====
-- Runs of the model on concrete inputs, and each theorem at an input that meets its hypotheses.
mod Data
mod Folds
mod Chains
mod Reports
mod Control
mod Plans
mod Documents
mod Evidence
mod Dispatches
