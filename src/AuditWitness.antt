-- ===== src/AuditWitness.antt =====
-- Published chain heads: app/services/audit_witness.py. `Heads` compares the published heads with
-- the database and decides about foreign chains.
pub mod Heads
