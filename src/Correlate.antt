-- ===== src/Correlate.antt =====
-- internal/correlate: detection rules over windows of the event stream. The modules below hold the
-- window query, the rule and the cycle of the evaluator.
pub mod Window
pub mod Rule
pub mod Evaluator
pub mod Gains
pub mod Shares
pub mod Errors
pub mod Accounting
pub mod Tallies
pub mod Counting
