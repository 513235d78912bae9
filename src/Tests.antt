-- ===== src/Tests.antt =====
-- Runs of the model at small inputs, and each theorem with hypotheses at an input that meets them.
pub mod Search
pub mod Slots
pub mod Graph
pub mod Definitions
pub mod Numbers
pub mod Growing
pub mod Walking
pub mod Node
pub mod Rows
