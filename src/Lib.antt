-- ===== src/Lib.antt =====
-- A model of the core of the First Trust Portal, with the theorems that make it correct.
--
-- The portal keeps the evidence of a compliance programme. People, agents and client reviewers sign
-- in with API keys or sessions; every change is chained into an audit log that can be verified and
-- whose heads are published to a witness bucket; a scheduler runs collectors and syncs, one at a time
-- for each target; evidence files travel in chunks and under keys that state their kind. The parts
-- and the files that model them:
--
-- * Prelude, Prelude/Tests, Prelude/Lists: numbers, Boolean tests, lists, and their lemmas.
-- * Team and the files under it: app/models/team_member.py and app/services/team_service.py. The
--   table is a list of `TeamMember` rows; `create_member`, `deactivate_member`, `regenerate_key` and
--   `find_by_api_key` have the names of the functions. A digest is an argument.
-- * Auth and the files under it: app/auth.py. Header reads the API key of a request, Session has the
--   Flask session as a record and the functions on it, Gates the decorators. A member is looked up
--   in the table of Team.
-- * RateLimit and the files under it: app/services/rate_limit.py and the client sessions of
--   app/auth.py, on a table of counters.
-- * AuditLog has the rows of the audit log and the queries that are made of them. AuditChain and the
--   files under it: app/services/audit_chain.py (Scan is the loop of `verify_chain`, Links is
--   `classify_links`, Issues the findings and the status, Verdict the rest of the function).
--   AuditWitness/Heads: the comparison of published heads in app/services/audit_witness.py, which
--   `verify_chain` calls.
-- * Scheduler and the files under it: the job runs of app/services/scheduler.py. Runs has the
--   statements on a run table, Guard has `RunGuard` and `execute_claimed`, Steps the statements as
--   steps of sessions that interleave, with the advisory locks, Missed the scheduled and missed
--   fires, and Duties the periodic tasks and the dispatching of the leader.
-- * Schedule and the files under it: `crontab_day_of_week` and `parse_cron` of the same file.
-- * ChunkedFiles and the files under it: app/services/chunked_files.py. Manifest is
--   `parse_manifest`, Transfer is `reassemble` and `split`.
-- * EvidenceKeys and the files under it: app/services/evidence_store/keys.py.
-- * DecisionLogs and the files under it: app/services/evidence_import_decision_logs.py, with
--   `same_tool_calls` and `clean_text` of app/services/transcript_ingest.py and the rows of
--   app/models/decision_log.py. Entries has `_compare_with_stored`, Store the rows of one session,
--   Writes the functions that write them, Import is `_import`, and Budget the import budget as steps
--   of the threads that share it.
-- * Transcripts and the files under it: the parser of app/services/transcript_ingest.py. Json is
--   decoded JSON, Records has the parse of one format, Formats reads one record of either, and Parse
--   is the loop of `parse_transcript`.
-- * StoreSync and the files under it: app/services/evidence_store/store.py and
--   app/services/evidence_store/sync.py. Listing groups what the bucket lists, Tally counts, Fetch
--   reads and checks one version, and Process writes the records of a batch; the kinds are those of
--   EvidenceKeys.
-- * RequestLimits and the files under it: app/request_limits.py.
-- * Each Examples file applies the results of its part to concrete inputs.
--
-- Numbers are natural numbers without a bound, as Python's are where no subtraction goes below zero;
-- instants are microseconds, seconds in the session. Texts that the code walks are lists of code
-- points. A table is a list of rows in query order, and one database statement is one step; what
-- other sessions commit between two statements is an argument or a step of a trace. SHA-256, JSON
-- reading and writing, the verifier of an archive manifest, APScheduler and the storage of parts are
-- arguments; so are, for the decision logs, gzip, the reconstruction and the parser of transcripts
-- (which Transcripts models, on code points); for the store, base64, the content checks, and what S3
-- and each transaction answer; and for transcripts, JSON and the reading of lines and timestamps.
--
-- Fuel: the loop of `verify_chain` takes fuel and is shown to end with more fuel than rows. The
-- slices of `split` take the number of bytes, and a day range takes its end plus one; both are
-- enough because each turn takes at least one byte, or one day, further.
--
-- Not modelled: HTTP routes, templates, the command line, collectors, migrations, S3 and the file
-- system, transactions inside one operation, logging, the leader election and the rest of its loop,
-- the publishing of heads, the other importers, and the verification of the store. They are I/O,
-- glue, or left for a later extension.
pub mod Prelude
pub mod Team
pub mod Transcripts
pub mod Auth
pub mod RateLimit
pub mod AuditLog
pub mod AuditWitness
pub mod AuditChain
pub mod Scheduler
pub mod Schedule
pub mod ChunkedFiles
pub mod DecisionLogs
pub mod EvidenceKeys
pub mod StoreSync
pub mod RequestLimits
