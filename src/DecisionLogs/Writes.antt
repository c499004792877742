-- ===== src/DecisionLogs/Writes.antt =====
-- The functions of app/services/evidence_import_decision_logs.py that write the rows of a session.
-- SHA-256, JSON, gzip and the parser of transcripts are the argument `Codec`; its `reconstruct` is
-- `_reconstruct`.
use ai_agent_first_trust_por.Prelude.{
  ℕ, String, true, false, ◌&&◌, Option, none, some, List, [], ◌∷◌, ◌++◌, map, ltb, length, take,
  drop, any, if◌then◌else◌,
}
use ai_agent_first_trust_por.DecisionLogs.Entries.{
  Entry, Comparison, eq_text, entries_digest, digest_with,
}
use ai_agent_first_trust_por.DecisionLogs.Store.{
  Detail, Parsed, Reason, Session, Stored, Upload, Version, admin, apply_session_fields,
  clean_metadata, current, differed_at, has_current_version, inserted_session, is_current,
  is_rejected, is_source, not_contained, or_else, rejected, repository_conflict, superseded,
  superseded_by_longer, system, version,
}

abbrev pub min_or : ℕ → ℕ → ℕ
min_or a b = if ltb b a then b else a

-- `_repository_entries`
repository_of : Option String → ℕ → Option ℕ → ℕ
repository_of submitter stored (some n) = min_or n stored
repository_of none stored none = stored
repository_of (some m) stored none = 0

unfoldable pub repository_entries : Session → ℕ → ℕ
unfolding repository_of
repository_entries s stored = repository_of s.submitted_by stored s.repository_entries

-- a row of the loop of `_supersede_current`
unfoldable pub superseded_row : List ℕ → String → Reason → Version → Version
superseded_row gz digest reason v =
    if is_current v
    then record v {
      status = superseded;
      content_gz = some gz;
      reason = some reason;
      entries_sha256 = or_else v.entries_sha256 (some digest);
    }
    else v

-- the row for a session stored before versions were recorded
unrecorded_version : Upload → Session → List ℕ → String → ℕ → Reason → Version
unrecorded_version u s gz digest count reason = record {
  status = superseded;
  content_sha256 = s.content_sha256;
  content_bytes = s.content_bytes;
  entry_count = count;
  entries_sha256 = some digest;
  content_gz = some gz;
  reason = some reason;
  source_path = clean_metadata 500 s.transcript_path;
  source_commit = none;
  store_object_id = none;
  submitted_by = s.submitted_by;
  received_at = or_else (or_else s.replaced_at s.imported_at) (some u.now);
}

-- `_supersede_current`
unfoldable pub supersede_current :
    Upload → Session → List ℕ → String → ℕ → Reason → List Version → List Version
unfolding superseded_row unrecorded_version
supersede_current u s gz digest count reason vs =
    if has_current_version vs
    then map (superseded_row gz digest reason) vs
    else vs ++ unrecorded_version u s gz digest count reason ∷ []

-- code that is not the import's: SHA-256, JSON, gzip, and the parser of transcripts
pub record Codec : Type 0 where
  pub sha256_hex : List ℕ → String
  pub canonical : Entry → List ℕ
  pub reencode : String → Option String
  pub reconstruct : Session → List Entry → ℕ → List ℕ
  pub gzip : List ℕ → List ℕ
  pub parse_transcript : List ℕ → Option Parsed

module _ (k : Codec) where
  -- `_create`, where no other transaction has created the session
  unfoldable pub create : Upload → Parsed → String → ℕ → String → Stored → Stored
  create u p sha repository agent db = record {
    session = some (inserted_session u p sha repository agent);
    entries = db.entries ++ p.entries;
    versions =
        db.versions
        ++ version u current sha (length p.entries)
            (some (entries_digest k.sha256_hex k.canonical p.entries)) none none
          ∷ [];
  }

  -- `_extend`
  unfoldable pub extend : Upload → Parsed → String → Comparison → Session → Stored → Stored
  extend u p sha c s db =
      let repository = repository_entries s c.stored in
      let gz = k.reconstruct s (take c.stored p.entries) c.stored in
      let added = drop c.stored p.entries in
      record {
        session =
            some
              (record (apply_session_fields u p sha (elim u.authority [ admin ↦ true | _ ↦ false ])
                s) {
                  replaced_at = some u.now;
                  repository_entries =
                      some (if is_source u.authority then length p.entries else repository);
                });
        entries = db.entries ++ added;
        versions =
            supersede_current u s gz c.stored_sha256 c.stored superseded_by_longer db.versions
            ++ version u current sha (length p.entries)
                (some (digest_with k.sha256_hex k.canonical c added)) none none
              ∷ [];
      }

  abbrev pub conflict_detail : Upload → Parsed → Comparison → Detail
  conflict_detail u p c = elim c.difference [
    | some d ↦ differed_at d c.stored (length p.entries) u.source_path
    | none ↦ not_contained (length p.entries) c.stored u.source_path
  ]

  abbrev pub conflict_cut : Parsed → Comparison → ℕ
  conflict_cut p c = elim c.difference [ some d ↦ d | none ↦ length p.entries ]

  -- `_adopt_repository_version`
  unfoldable pub adopt : Upload → Parsed → String → Comparison → Session → Stored → Stored
  adopt u p sha c s db =
      let cut = conflict_cut p c in
      let detail = conflict_detail u p c in
      let gz = k.reconstruct s db.entries c.stored in
      let added = drop cut p.entries in
      record {
        session = some (record (apply_session_fields u p sha true s) {
          ended_at = p.ended_at;
          replaced_at = some u.now;
          repository_entries = some (length p.entries);
          submitted_by = u.submitted_by;
          conflict_at = some u.now;
          conflict_detail = some detail;
        });
        entries = take cut db.entries ++ added;
        versions =
            supersede_current u s gz c.stored_sha256 c.stored (repository_conflict detail)
              db.versions
            ++ version u current sha (length p.entries)
                (some (digest_with k.sha256_hex k.canonical c added)) none none
              ∷ [];
      }

  -- `_baseline`
  unfoldable pub baseline : Upload → String → Comparison → Session → Stored → Stored
  baseline u sha c s db = record {
    session = some (record s {
      repository_entries = some c.stored;
      content_sha256 = some sha;
      content_bytes = some (length u.content);
    });
    entries = db.entries;
    versions = db.versions ++ version u current sha c.stored (some c.stored_sha256) none none ∷ [];
  }

  -- the digest and size of a session stored before digests were recorded
  unfoldable pub backfill : Upload → String → Comparison → Session → Stored → Stored
  backfill u sha c s db = record db {
    session = some (record s {
      repository_entries = elim u.authority [ system ↦ some c.stored | _ ↦ s.repository_entries ];
      content_sha256 = some sha;
      content_bytes = some (length u.content);
    });
  }

  -- `_record_rejected`
  unfoldable pub record_rejected : Upload → String → ℕ → Reason → Stored → Stored
  record_rejected u sha entries reason db =
      if any (λ v. is_rejected v && eq_text v.content_sha256 (some sha)) db.versions
      then db
      else record db {
        versions =
            db.versions
            ++ version u rejected sha entries none (some (k.gzip u.content)) (some reason) ∷ [];
      }
