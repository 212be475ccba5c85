-- ===== src/MonthClosing.antt =====
-- The month-closing side of the program: the run of one accounting period, its store, and the workflow
-- that takes it to the accountant.
pub mod Run
pub mod RunStore
pub mod Gates
pub mod Package
pub mod Outside
pub mod Reports
pub mod Stage
pub mod Workflow
