-- ===== src/AuditChain.antt =====
-- Verification of the audit log's hash chain: app/services/audit_chain.py. `Scan` reads the rows in
-- chunks, `Links` tells forks from breaks, `Verdict` makes the report; the other modules prove.
pub mod Scan
pub mod Slices
pub mod Links
pub mod Issues
pub mod Verdict
pub mod Clean
pub mod Verified
pub mod Findings
pub mod Tampering
pub mod Witnessed
mod Examples
