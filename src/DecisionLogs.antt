-- ===== src/DecisionLogs.antt =====
-- The decision-log import of app/services/evidence_import_decision_logs.py: one session, the entries
-- and the versions that are stored for it, and what an import does with a new export of it.
pub mod Entries
pub mod Compared
pub mod Store
pub mod Writes
pub mod Import
pub mod DryRun
pub mod Effects
pub mod Agreement
pub mod Repository
pub mod Joined
pub mod Current
pub mod Accepted
pub mod Again
pub mod Budget
pub mod Turns
pub mod Examples
pub mod AppendOnly
