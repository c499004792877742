-- ===== src/StoreSync/Process.antt =====
-- How versions become records: `_record`, `write_version`, `_record_failure`, `_write`,
-- `process_version`, `recorded_versions` and `_process_batch` of
-- app/services/evidence_store/sync.py, on the `evidence_store_objects` rows of one bucket. What S3
-- and the database answer, and the status that a kind's import ends in, are arguments; a transaction
-- that does not commit changes nothing. Of a row the columns that name the version, its outcome and
-- its digests are kept.
use ai_agent_first_trust_por.Prelude.{
  ℕ, suc, String, Bool, true, false, not, ◌&&◌, Option, none, some, List, [], ◌∷◌, ◌++◌, str_eq,
  find, update_first, if◌then◌else◌,
}
use ai_agent_first_trust_por.Auth.Header.{same_text}
use ai_agent_first_trust_por.EvidenceKeys.{Classified, stored_key}
use ai_agent_first_trust_por.StoreSync.Listing.{ListedVersion, KeyGroup}
use ai_agent_first_trust_por.StoreSync.Tally.{
  Status, rejected, Tally, add_status, error, note_groups,
}
use ai_agent_first_trust_por.StoreSync.Fetch.{Bytes, Fetched, Fetch, raised, fetched}

pub data RecordStatus : Type 0 where
  outcome : Status → RecordStatus
  error_status acknowledged erased : RecordStatus

pub record Row : Type 0 where
  pub id : String
  pub key : List ℕ
  pub key_escaped : Bool
  pub version_id : String
  pub kind : Classified
  pub status : RecordStatus
  pub attempts : ℕ
  pub sha256 : Option Bytes
  pub composite_checksum : Option (List ℕ)
  pub size : ℕ

-- `Recorded`
pub record Recorded : Type 0 where
  pub id : String
  pub status : RecordStatus
  pub attempts : ℕ

-- a `Fetched` with the names that `new_fetched` gives it
pub record Work : Type 0 where
  pub version : ListedVersion
  pub read : Fetched
  pub record_id : Option String
  pub attempts : ℕ
  pub reevaluation : Bool

abbrev pub has_id : String → Row → Bool
has_id i r = str_eq r.id i

-- `setattr` only for a value that was read
abbrev pub kept {ℓ} : {A : Type ℓ} → Option A → Option A → Option A
kept old none = old
kept old (some v) = some v

abbrev pub updated : Work → RecordStatus → ℕ → Row → Row
updated w status attempts r = record r {
  status = status;
  attempts = attempts;
  sha256 = kept r.sha256 w.read.sha256;
  composite_checksum = kept r.composite_checksum w.read.composite_checksum;
  size = w.read.size;
}

abbrev pub inserted : Work → String → RecordStatus → ℕ → Row
inserted w new_id status attempts = record {
  id = new_id;
  key = (stored_key w.version.key).0;
  key_escaped = (stored_key w.version.key).1;
  version_id = w.version.version_id;
  kind = w.read.kind;
  status = status;
  attempts = attempts;
  sha256 = w.read.sha256;
  composite_checksum = w.read.composite_checksum;
  size = w.read.size;
}

-- the id that a row of the work has or gets
abbrev pub id_or : String → Option String → String
id_or new_id none = new_id
id_or new_id (some i) = i

unfoldable pub row_of : Option String → List Row → Option Row
row_of none rows = none
row_of (some i) rows = find (has_id i) rows

unfoldable pub record_found : Work → String → RecordStatus → ℕ → List Row → Option Row → List Row
record_found w new_id status attempts rows none =
    rows ++ inserted w (id_or new_id w.record_id) status attempts ∷ []
record_found w new_id status attempts rows (some r) =
    update_first (has_id r.id) (updated w status attempts) rows

-- `_record`
unfoldable pub record_row : Work → String → RecordStatus → ℕ → List Row → List Row
record_row w new_id status attempts rows =
    record_found w new_id status attempts rows (row_of w.record_id rows)

pub record World : Type 0 where
  pub rows : List Row
  pub tally : Tally

-- how a transaction ends: it commits, with the status of the kind's import where that decides it; the
-- plan conflicts; a deadlock; another error; the run's lock is lost
pub data Attempt : Type 0 where
  commits : Status → Attempt
  conflict deadlock fails lock_lost : Attempt

-- `LockLostError`, or the world afterwards
pub data Synced : Type 0 where
  lock_lost_error : Synced
  synced : World → Synced

-- `write_version`: a status that was decided before is the row's
abbrev pub status_or : Option Status → Status → Status
status_or none s = s
status_or (some s) import = s

unfoldable pub write_version : Work → String → Status → List Row → List Row × Status
write_version w new_id import rows =
    let s = status_or w.read.status import in (record_row w new_id (outcome s) w.attempts rows, s)

unfoldable pub committed : Work → String → Status → World → Synced
committed w new_id import world =
    let (rows, s) = write_version w new_id import world.rows in
    synced (record { rows = rows; tally = add_status s world.tally })

abbrev counted_error : Work → World → World
counted_error w world = record world {
  tally = error w.version.key (some w.version.version_id) world.tally;
}

-- `_record_failure`
unfoldable pub record_failure : Work → String → Attempt → World → Synced
record_failure w new_id attempt world =
    let counted = counted_error w world in
    let rows = record_row w new_id error_status (suc w.attempts) world.rows in
    if w.reevaluation then synced counted else elim attempt [
      | commits s ↦ synced (record counted { rows = rows })
      | lock_lost ↦ lock_lost_error
      | _ ↦ synced counted
    ]

-- what the transactions of one version answer: the two attempts, the record of a refusal, and that of
-- a failure
pub record Answers : Type 0 where
  pub new_id : String
  pub fetch : Fetch
  pub first : Attempt
  pub second : Attempt
  pub refusal : Attempt
  pub failure : Attempt

abbrev pub refused_work : Work → Work
refused_work w = record w {
  read = record w.read { status = some rejected; content = none };
  attempts = 0;
}

-- the end of `_write`, for a conflict
unfoldable pub write_refusal : Work → Answers → World → Synced
write_refusal w a world = elim a.refusal [
  | commits s ↦ committed (refused_work w) a.new_id s world
  | lock_lost ↦ lock_lost_error
  | _ ↦ record_failure (refused_work w) a.new_id a.failure world
]

unfoldable pub write_again : Work → Answers → World → Synced
write_again w a world = elim a.second [
  | commits s ↦ committed w a.new_id s world
  | conflict ↦ write_refusal w a world
  | lock_lost ↦ lock_lost_error
  | _ ↦ record_failure w a.new_id a.failure world
]

-- `_write`
unfoldable pub write : Work → Answers → World → Synced
write w a world = elim a.first [
  | commits s ↦ committed w a.new_id s world
  | conflict ↦ write_refusal w a world
  | deadlock ↦ write_again w a world
  | fails ↦ record_failure w a.new_id a.failure world
  | lock_lost ↦ lock_lost_error
]

abbrev pub record_id_of : Option Recorded → Option String
record_id_of none = none
record_id_of (some r) = some r.id

abbrev pub attempts_of : Option Recorded → ℕ
attempts_of none = 0
attempts_of (some r) = r.attempts

-- `new_fetched`, with what was read of the version
abbrev pub work_of : ListedVersion → Option Recorded → Fetched → Work
work_of v recorded f = record {
  version = v;
  read = f;
  record_id = record_id_of recorded;
  attempts = attempts_of recorded;
  reevaluation = false;
}

abbrev pub counted_new : World → World
counted_new world = record world {
  tally = record world.tally {
    counts = record world.tally.counts { new = suc world.tally.counts.new };
  };
}

-- `process_version`
unfoldable pub process_version : ListedVersion → Option Recorded → Answers → World → Synced
process_version v recorded a world = elim a.fetch [
  | raised f ↦ record_failure (work_of v recorded f) a.new_id a.failure (counted_new world)
  | fetched f ↦ write (work_of v recorded f) a (counted_new world)
]

abbrev pub eq_flag : Bool → Bool → Bool
eq_flag true b = b
eq_flag false b = not b

-- the row of a version in the result of `recorded_versions`
abbrev pub is_row_of : ListedVersion → Row → Bool
is_row_of v r =
    same_text r.key (stored_key v.key).0
    && (eq_flag r.key_escaped (stored_key v.key).1 && str_eq r.version_id v.version_id)

abbrev pub recorded_of : Option Row → Option Recorded
recorded_of none = none
recorded_of (some r) = some (record { id = r.id; status = r.status; attempts = r.attempts })

unfoldable pub recorded_version : List Row → ListedVersion → Option Recorded
recorded_version rows v = recorded_of (find (is_row_of v) rows)

-- `retried`
abbrev pub retried : RecordStatus → Bool
retried s = elim s [ error_status ↦ true | _ ↦ false ]

-- `recorded is None or retried(...)`
unfoldable pub to_process : Option Recorded → Bool
to_process none = true
to_process (some r) = retried r.status

-- the loop over the candidates; `known` is what the table held before it
unfoldable pub process_candidates : List Row → List (ListedVersion × Answers) → World → Synced
process_candidates known [] world = synced world
process_candidates known ((v, a) ∷ rest) world =
    let recorded = recorded_version known v in
    let skipped = process_candidates known rest world in
    if to_process recorded
    then (elim (process_version v recorded a world) [
      | lock_lost_error ↦ lock_lost_error
      | synced next ↦ process_candidates known rest next
    ])
    else skipped

-- the first version of a key, if it has one
abbrev pub with_answers :
    (ListedVersion → Answers) → Option ListedVersion → List (ListedVersion × Answers)
with_answers answers none = []
with_answers answers (some v) = (v, answers v) ∷ []

unfoldable pub candidates :
    (ListedVersion → Answers) → List KeyGroup → List (ListedVersion × Answers)
candidates answers [] = []
candidates answers (g ∷ gs) = with_answers answers g.first ++ candidates answers gs

-- `_process_batch`
unfoldable pub process_batch : (ListedVersion → Answers) → List KeyGroup → World → Synced
process_batch answers batch world =
    process_candidates world.rows (candidates answers batch)
      (record world { tally = note_groups batch world.tally })
