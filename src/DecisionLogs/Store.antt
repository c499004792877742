-- ===== src/DecisionLogs/Store.antt =====
-- What is stored for one decision-log session, the exports of it, and the rows that an import makes of
-- them: app/models/decision_log.py and app/services/evidence_import_decision_logs.py. The tables are
-- those rows that name the session. Instants are UTC; texts that are cleaned and cut are code points.
use ai_agent_first_trust_por.Prelude.{
  ℕ, String, Bool, true, false, not, ◌&&◌, ◌||◌, Option, none, some, List, map, leb, ◌==◌, length,
  take, any, is_some, if◌then◌else◌,
}
use ai_agent_first_trust_por.DecisionLogs.Entries.{Entry}

abbrev pub Text : Type 0
Text = List ℕ

-- `ParsedTranscript`
pub record Parsed : Type 0 where
  pub entries : List Entry
  pub model : Option Text
  pub cwd : Option Text
  pub git_branch : Option Text
  pub started_at : Option ℕ
  pub ended_at : Option ℕ
  pub agent_type : String

-- what a conflict replaced: from an entry on, or all beyond the repository's version
pub data Detail : Type 0 where
  differed_at : (cut stored count : ℕ) → Option Text → Detail
  not_contained : (count stored : ℕ) → Option Text → Detail

pub data Reason : Type 0 where
  superseded_by_longer forbidden_upload repository_owned : Reason
  repository_conflict : Detail → Reason
  entry_differs : (entry stored : ℕ) → Reason
  backdated : (entry stamp latest : ℕ) → Reason

pub record Session : Type 0 where
  pub agent_type : Option String
  pub model : Option Text
  pub cwd : Option Text
  pub git_branch : Option Text
  pub started_at : Option ℕ
  pub ended_at : Option ℕ
  pub exit_reason : Option Text
  pub transcript_path : Option Text
  pub submitted_by : Option String
  pub imported_at : Option ℕ
  pub content_sha256 : Option String
  pub content_bytes : Option ℕ
  pub replaced_at : Option ℕ
  pub repository_entries : Option ℕ
  pub conflict_at : Option ℕ
  pub conflict_detail : Option Detail

pub data VersionStatus : Type 0 where
  current superseded rejected : VersionStatus

-- a `DecisionLogTranscript` row
pub record Version : Type 0 where
  pub status : VersionStatus
  pub content_sha256 : Option String
  pub content_bytes : Option ℕ
  pub entry_count : ℕ
  pub entries_sha256 : Option String
  pub content_gz : Option (List ℕ)
  pub reason : Option Reason
  pub source_path : Option Text
  pub source_commit : Option String
  pub store_object_id : Option String
  pub submitted_by : Option String
  pub received_at : Option ℕ

pub record Stored : Type 0 where
  pub session : Option Session
  pub entries : List Entry
  pub versions : List Version

pub data Authority : Type 0 where
  system store admin member : Authority

-- the arguments of an import, with the context of its thread and the time
pub record Upload : Type 0 where
  pub content : List ℕ
  pub source_path : Option Text
  pub exit_reason : Option Text
  pub submitted_by : Option String
  pub authority : Authority
  pub named_agent : Option String
  pub preparsed : Option Parsed
  pub source_commit : Option String
  pub store_object_id : Option String
  pub dry_run : Bool
  pub now : ℕ

-- `SOURCE_AUTHORITIES`
abbrev pub is_source : Authority → Bool
is_source a = elim a [ system ↦ true | store ↦ true | _ ↦ false ]

abbrev pub is_current : Version → Bool
is_current v = elim v.status [ current ↦ true | _ ↦ false ]

abbrev pub is_rejected : Version → Bool
is_rejected v = elim v.status [ rejected ↦ true | _ ↦ false ]

-- `_has_current_version`
unfoldable pub has_current_version : List Version → Bool
has_current_version vs = any is_current vs

-- `clean_text`
abbrev clean_char : ℕ → ℕ
clean_char c = if c == 0 || (leb 0xd800 c && leb c 0xdfff) then 0xfffd else c

unfoldable pub clean_text : Text → Text
clean_text t = map clean_char t

-- `clean_metadata`, by the column's length
unfoldable pub clean_metadata : ℕ → Option Text → Option Text
clean_metadata n none = none
clean_metadata n (some t) = some (take n (clean_text t))

pub record Metadata : Type 0 where
  pub model : Option Text
  pub cwd : Option Text
  pub git_branch : Option Text
  pub started_at : Option ℕ
  pub exit_reason : Option Text
  pub transcript_path : Option Text

-- `_metadata`
unfoldable pub metadata : Parsed → Option Text → Option Text → Metadata
metadata p source_path exit_reason = record {
  model = clean_metadata 100 p.model;
  cwd = clean_metadata 500 p.cwd;
  git_branch = clean_metadata 200 p.git_branch;
  started_at = p.started_at;
  exit_reason = clean_metadata 50 exit_reason;
  transcript_path = clean_metadata 500 source_path;
}

-- a supplied value fills an unset column, or replaces a set one
unfoldable pub filled {ℓ} : {A : Type ℓ} → Bool → Option A → Option A → Option A
filled replace old none = old
filled replace old (some v) = if replace || not (is_some old) then some v else old

abbrev pub or_else {ℓ} : {A : Type ℓ} → Option A → Option A → Option A
or_else none b = b
or_else (some a) b = some a

-- `_apply_session_fields`
unfoldable pub apply_session_fields : Upload → Parsed → String → Bool → Session → Session
apply_session_fields u p sha replace s =
    let m = metadata p u.source_path u.exit_reason in
    record s {
      model = filled replace s.model m.model;
      cwd = filled replace s.cwd m.cwd;
      git_branch = filled replace s.git_branch m.git_branch;
      started_at = filled replace s.started_at m.started_at;
      exit_reason = filled replace s.exit_reason m.exit_reason;
      transcript_path = filled replace s.transcript_path m.transcript_path;
      ended_at = or_else p.ended_at s.ended_at;
      content_sha256 = some sha;
      content_bytes = some (length u.content);
    }

-- the values that `_insert_session` inserts; a default gives `imported_at`
unfoldable pub inserted_session : Upload → Parsed → String → ℕ → String → Session
inserted_session u p sha repository agent =
    let m = metadata p u.source_path u.exit_reason in
    record {
      agent_type = some agent;
      model = m.model;
      cwd = m.cwd;
      git_branch = m.git_branch;
      started_at = m.started_at;
      ended_at = p.ended_at;
      exit_reason = m.exit_reason;
      transcript_path = m.transcript_path;
      submitted_by = u.submitted_by;
      imported_at = some u.now;
      content_sha256 = some sha;
      content_bytes = some (length u.content);
      replaced_at = none;
      repository_entries = some repository;
      conflict_at = none;
      conflict_detail = none;
    }

-- `_version` of an upload: a `current` or a `rejected` row
unfoldable pub version :
    Upload → VersionStatus → String → ℕ → Option String → Option (List ℕ) → Option Reason → Version
version u status sha entries digest gz reason = record {
  status = status;
  content_sha256 = some sha;
  content_bytes = some (length u.content);
  entry_count = entries;
  entries_sha256 = digest;
  content_gz = gz;
  reason = reason;
  source_path = clean_metadata 500 u.source_path;
  source_commit = u.source_commit;
  store_object_id = u.store_object_id;
  submitted_by = u.submitted_by;
  received_at = some u.now;
}
