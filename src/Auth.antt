-- ===== src/Auth.antt =====
-- Authentication and authorization: app/auth.py. A request, the session cookie's content and the
-- members' table are values; the clock, in microseconds, and the digest function are arguments.
pub mod Header
pub mod Session
pub mod Gates
mod Blank
pub mod Validity
pub mod Revoked
pub mod Admitted
mod Examples
