-- ===== src/Transcripts.antt =====
-- The parser of transcripts: app/services/transcript_ingest.py.
pub mod Json
pub mod Records
pub mod Formats
pub mod Parse
pub mod Detected
pub mod Steps
pub mod Limits
pub mod Extended
mod Examples
