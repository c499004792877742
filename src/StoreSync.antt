-- ===== src/StoreSync.antt =====
-- The evidence-store sync: app/services/evidence_store/store.py reads the bucket and
-- app/services/evidence_store/sync.py records what it finds.
pub mod Listing
pub mod Tally
pub mod Fetch
pub mod Verified
pub mod Process
pub mod Counted
pub mod Stands
pub mod Listed
pub mod Noted
mod Examples
