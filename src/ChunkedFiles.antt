-- ===== src/ChunkedFiles.antt =====
-- The chunked-file convention of app/services/chunked_files.py.
pub mod Manifest
pub mod Transfer
pub mod Parsed
pub mod Reassembled
mod Slices
pub mod RoundTrip
mod Examples
