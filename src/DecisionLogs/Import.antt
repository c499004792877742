-- ===== src/DecisionLogs/Import.antt =====
-- `_import` of app/services/evidence_import_decision_logs.py: what one import does with a session.
use ai_agent_first_trust_por.Prelude.{
  ℕ, suc, String, Bool, true, false, not, ◌&&◌, Option, none, some, List, [], ◌∷◌, ltb, leb, ◌==◌,
  length, drop, is_some, if◌then◌else◌,
}
use ai_agent_first_trust_por.DecisionLogs.Entries.{Entry, Comparison, eq_text, compare_with_stored}
use ai_agent_first_trust_por.DecisionLogs.Store.{
  Parsed, Reason, forbidden_upload, repository_owned, entry_differs, backdated, Session, Stored,
  Authority, system, store, admin, member, Upload, is_source, has_current_version,
}
use ai_agent_first_trust_por.DecisionLogs.Writes.{
  Codec, repository_entries, create, extend, adopt, baseline, backfill, record_rejected,
}

pub data Status : Type 0 where
  created replaced unchanged kept_existing rejected : Status

-- `DecisionLogResult`, without the session id
pub record Result : Type 0 where
  pub status : Status
  pub entries : ℕ
  pub content_sha256 : String
  pub content_bytes : ℕ
  pub reason : Option Reason
  pub forbidden : Bool
  pub conflict : Bool
  pub baselined : Bool
  pub agent_type : Option String
  pub submitted_entries : Option ℕ

pub data Outcome : Type 0 where
  -- a `ValueError` of the parser; a session that another transaction created and that is gone
  invalid_transcript vanished_session : Outcome
  done : Result → Outcome

-- `_latest_stored_timestamp`
abbrev later_of : Option ℕ → Option ℕ → Option ℕ
later_of none b = b
later_of (some a) none = some a
later_of (some a) (some b) = some (if ltb a b then b else a)

unfoldable pub latest_stored_timestamp : List Entry → Option ℕ
latest_stored_timestamp [] = none
latest_stored_timestamp (e ∷ es) = later_of e.timestamp (latest_stored_timestamp es)

abbrev pub is_before : Option ℕ → ℕ → Bool
is_before none latest = false
is_before (some t) latest = ltb t latest

-- `_first_backdated`, from the entries after the stored ones: the index, and the entry's timestamp
unfoldable pub first_backdated : List Entry → ℕ → ℕ → Option (ℕ × ℕ)
first_backdated [] index latest = none
first_backdated (e ∷ es) index latest = elim e.timestamp [
  | none ↦ first_backdated es (suc index) latest
  | some t ↦
      let rest = first_backdated es (suc index) latest in
      if ltb t latest then some (index, t) else rest
]

backdated_from : List Entry → ℕ → Option ℕ → Option (ℕ × ℕ × ℕ)
backdated_from es index none = none
backdated_from es index (some latest) = elim (first_backdated es index latest) [
  | none ↦ none
  | some (i, t) ↦ some (i, t, latest)
]

same_member : Option String → Option String → Bool
same_member none by = false
same_member (some m) by = eq_text (some m) by

-- `_may_extend`
unfoldable pub may_extend : Session → Authority → Option String → Bool
unfolding same_member
may_extend s system by = true
may_extend s store by = true
may_extend s admin by = true
may_extend s member by = same_member s.submitted_by by && not (is_some s.conflict_at)

-- `_repository_wins`
unfoldable pub repository_wins : Session → ℕ → Comparison → Bool → Bool
repository_wins s count c has_current =
    let repository =
      if not (is_some s.repository_entries) && not has_current
      then 0
      else repository_entries s c.stored in
    elim c.difference [
      | some d ↦ leb repository d
      | none ↦ ltb count c.stored && leb repository count
    ]

module _ (k : Codec) where
  abbrev pub sha_of : Upload → String
  sha_of u = k.sha256_hex u.content

  -- the inner function `result`, for a stored session
  abbrev pub result : Upload → Option String → Option Parsed → Status → ℕ → Option Reason → Result
  result u agent parsed status entries reason = record {
    status = status;
    entries = entries;
    content_sha256 = sha_of u;
    content_bytes = length u.content;
    reason = reason;
    forbidden = false;
    conflict = false;
    baselined = false;
    agent_type = agent;
    submitted_entries = elim parsed [ none ↦ none | some p ↦ some (length p.entries) ];
  }

  -- what a dry run leaves undone
  abbrev pub unless_dry : Upload → Stored → Stored → Stored
  unless_dry u db db' = if u.dry_run then db else db'

  -- the inner function `reject`
  unfoldable pub reject : Upload → Parsed → Session → Stored → Reason → ℕ → Bool → Outcome × Stored
  reject u p s db reason stored forbidden = (
    done (record (result u s.agent_type (some p) rejected stored (some reason)) {
      forbidden = forbidden;
    }),
    unless_dry u db (record_rejected k u (sha_of u) (length p.entries) reason db),
  )

  -- an export with more entries, from the check for back-dated ones on
  unfoldable pub appended :
      Upload → Parsed → Session → Stored → Comparison → Option (ℕ × ℕ × ℕ) → Outcome × Stored
  appended u p s db c (some (index, stamp, latest)) =
      reject u p s db (backdated (suc index) stamp latest) c.stored false
  appended u p s db c none = (
    done (result u s.agent_type (some p) replaced (length p.entries) none),
    unless_dry u db (extend k u p (sha_of u) c s db),
  )

  -- an export with more entries than the stored ones, which it repeats
  unfoldable pub longer : Upload → Parsed → Session → Stored → Comparison → Outcome × Stored
  unfolding backdated_from
  longer u p s db c =
      if not (may_extend s u.authority u.submitted_by)
      then reject u p s db forbidden_upload c.stored true
      else if not (is_source u.authority) && ltb 0 (repository_entries s c.stored)
      then reject u p s db repository_owned c.stored false
      else appended u p s db c (
          if is_source u.authority
          then none
          else backdated_from (drop c.stored p.entries) c.stored
              (latest_stored_timestamp db.entries))

  -- the same entries for a session without a digest
  abbrev pub is_backfill : Upload → Parsed → Session → Comparison → Bool
  is_backfill u p s c =
      length p.entries == c.stored
      && (not (is_some s.content_sha256)
          && (may_extend s u.authority u.submitted_by
              && elim u.authority [ store ↦ false | _ ↦ true ]))

  -- no stored entry differs from the export's
  unfoldable pub agreeing : Upload → Parsed → Session → Stored → Comparison → Outcome × Stored
  agreeing u p s db c =
      if ltb c.stored (length p.entries)
      then longer u p s db c
      else if is_backfill u p s c
      then (
        done (result u s.agent_type (some p) unchanged c.stored none),
        unless_dry u db (backfill k u (sha_of u) c s db),
      )
      else (done (result u s.agent_type (some p) kept_existing c.stored none), db)

  abbrev pub unbaselined : Upload → Stored → Bool
  unbaselined u db = is_source u.authority && not (has_current_version db.versions)

  abbrev pub is_system : Authority → Bool
  is_system a = elim a [ system ↦ true | _ ↦ false ]

  -- the export against the stored entries
  unfoldable pub compared : Upload → Parsed → Session → Stored → Comparison → Outcome × Stored
  compared u p s db c =
      if is_system u.authority
        && repository_wins s (length p.entries) c (has_current_version db.versions)
      then (
        done (record (result u s.agent_type (some p) replaced (length p.entries) none) {
          conflict = true;
        }),
        unless_dry u db (adopt k u p (sha_of u) c s db),
      )
      else if not (is_some c.difference) && (unbaselined u db && length p.entries == c.stored)
      then (
        done (record (result u s.agent_type (some p) unchanged c.stored none) { baselined = true }),
        unless_dry u db (baseline k u (sha_of u) c s db),
      )
      else elim c.difference [
        | some d ↦ reject u p s db (entry_differs (suc d) c.stored) c.stored false
        | none ↦ agreeing u p s db c
      ]

  unfoldable pub against : Upload → Session → Stored → Option Parsed → Outcome × Stored
  against u s db none = (invalid_transcript, db)
  against u s db (some p) =
      compared u p s db
        (compare_with_stored k.sha256_hex k.canonical k.reencode db.entries p.entries)

  abbrev pub parsed_or : Upload → Option Parsed → Option Parsed
  parsed_or u none = k.parse_transcript u.content
  parsed_or u (some p) = some p

  -- a session that is stored
  unfoldable pub import_stored : Upload → Option Parsed → Session → Stored → Outcome × Stored
  import_stored u parsed s db =
      if eq_text s.content_sha256 (some (sha_of u)) && not (unbaselined u db)
      then (done (result u s.agent_type parsed unchanged (length db.entries) none), db)
      else against u s db (parsed_or u parsed)

  -- the stored state that another transaction has committed meanwhile
  import_raced : Upload → Parsed → Stored → Option Session → Outcome × Stored
  import_raced u p db none = (vanished_session, db)
  import_raced u p db (some s) = import_stored u (some p) s db

  unfoldable pub agent_of : Upload → Parsed → String
  agent_of u p = elim u.named_agent [ none ↦ p.agent_type | some a ↦ a ]

  unfoldable pub import_new : Upload → Stored → Option Stored → Option Parsed → Outcome × Stored
  unfolding import_raced agent_of
  import_new u db raced none = (invalid_transcript, db)
  import_new u db raced (some p) =
      let r = result u (some (agent_of u p)) (some p) created (length p.entries) none in
      if u.dry_run then (done r, db) else elim raced [
        | none ↦ (
          done r,
          create k u p (sha_of u) (if is_source u.authority then length p.entries else 0)
              (agent_of u p) db,
        )
        | some other ↦ import_raced u p other other.session
      ]

  unfoldable pub import_for : Upload → Option Stored → Stored → Option Session → Outcome × Stored
  import_for u raced db none = import_new u db raced (parsed_or u u.preparsed)
  import_for u raced db (some s) = import_stored u u.preparsed s db

  -- `_import`; `raced` is what another transaction has committed of a session that was absent
  unfoldable pub import : Upload → Option Stored → Stored → Outcome × Stored
  import u raced db = import_for u raced db db.session
