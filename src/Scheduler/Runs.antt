-- ===== src/Scheduler/Runs.antt =====
-- The run tables of one job kind (`collector_run`, `git_sync_runs`, `evidence_store_sync_runs`) and
-- the statements of app/services/scheduler.py on them. A table is a list of rows; instants are
-- microseconds. What the other sessions commit between two statements is an argument.
use ai_agent_first_trust_por.Prelude.{
  ℕ, zero, suc, ◌-◌, ◌+◌, ◌*◌, String, Bool, true, false, ◌&&◌, Option, none, some, List, [], ◌∷◌,
  ◌++◌, map, ltb, str_eq, find, select, take, is_some, if◌then◌else◌,
}

pub data Status : Type 0 where
  queued running success failure partial : Status

pub record Run : Type 0 where
  pub id : String
  pub target : String
  pub trigger_type : String
  pub member : Option String
  pub status : Status
  pub queued_at : Option ℕ
  pub started_at : Option ℕ
  pub heartbeat_at : Option ℕ
  pub executor_token : Option String
  pub finished_at : Option ℕ
  pub error_message : Option String

-- `JobKind.queued_order_column`
pub data OrderColumn : Type 0 where
  by_started_at by_queued_at : OrderColumn

abbrev pub is_queued : Run → Bool
is_queued r = elim r.status [ queued ↦ true | _ ↦ false ]

abbrev pub is_running : Run → Bool
is_running r = elim r.status [ running ↦ true | _ ↦ false ]

-- `status.in_(("queued", "running"))`, also the condition of the partial unique index
abbrev pub is_active : Run → Bool
is_active r = elim r.status [ queued ↦ true | running ↦ true | _ ↦ false ]

abbrev pub has_id : String → Run → Bool
has_id i r = str_eq r.id i

abbrev pub has_target : String → Run → Bool
has_target t r = str_eq r.target t

abbrev pub find_run : String → List Run → Option Run
find_run i rows = find (has_id i) rows

-- UPDATE ... SET ... WHERE ..., and its rowcount
unfoldable pub update : (Run → Bool) → (Run → Run) → List Run → List Run
update p f [] = []
update p f (r ∷ rows) = (if p r then f r else r) ∷ update p f rows

-- `_active_run`
unfoldable pub active_run : String → List Run → Option Run
active_run t rows = find (λ r. has_target t r && is_active r) rows

pub data Inserted : Type 0 where
  committed : List Run → Inserted
  -- an `IntegrityError`: of the partial unique index, or another one (here the primary key)
  active_conflict other_conflict : Inserted

-- INSERT and COMMIT
unfoldable pub insert : Run → List Run → Inserted
insert r rows =
    if is_some (find_run r.id rows)
    then other_conflict
    else if is_active r && is_some (active_run r.target rows)
    then active_conflict
    else committed (rows ++ r ∷ [])

-- what a call comes back with, and the table at that time
pub data Enqueued : Type 0 where
  returned : (run : Run) (created : Bool) (table : List Run) → Enqueued
  integrity_error : (table : List Run) → Enqueued
  active_run_conflict : (table : List Run) → Enqueued

-- the active run, read back after a conflict; `rest` is the next attempt
unfoldable pub read_back : Option Run → List Run → (List Run → Enqueued) → Enqueued
read_back (some existing) rows rest = returned existing false rows
read_back none rows rest = rest rows

unfoldable pub after_insert :
    Inserted → (List Run → List Run) → Run → List Run → (List Run → Enqueued) → Enqueued
after_insert (committed table) after run rows rest = returned run true table
after_insert other_conflict after run rows rest = integrity_error rows
after_insert active_conflict after run rows rest =
    read_back (active_run run.target (after rows)) (after rows) rest

-- one attempt of `_enqueue`: what other sessions commit comes before the insert (`before`) and
-- before the active run is read back (`after`)
unfoldable pub attempt :
    (before after : List Run → List Run) → Run → List Run → (List Run → Enqueued) → Enqueued
unfolding after_insert read_back
attempt before after run rows rest =
    after_insert (insert run (before rows)) after run (before rows) rest

-- `_enqueue`: at most `attempts` inserts (`range(2)`) of the runs that `build` makes; `others` is what
-- the other sessions commit before each statement
unfoldable pub enqueue_attempts :
    (others : ℕ → List Run → List Run) (build : ℕ → Run) (attempts : ℕ) → List Run → Enqueued
unfolding attempt
enqueue_attempts others build zero rows = active_run_conflict rows
enqueue_attempts others build (suc n) rows =
    attempt (others (2 * n + 1)) (others (2 * n)) (build n) rows (enqueue_attempts others build n)

unfoldable pub unless_active : Option Run → List Run → Enqueued → Enqueued
unless_active (some existing) rows rest = returned existing false rows
unless_active none rows rest = rest

unfoldable pub enqueue :
    (others : ℕ → List Run → List Run) (build : ℕ → Run) → String → List Run → Enqueued
unfolding unless_active
enqueue others build target rows =
    unless_active (active_run target rows) rows (enqueue_attempts others build 2 rows)

-- the `build` of `enqueue_collector_run`, and of the two syncs
abbrev pub collector_run : String → String → String → Option String → ℕ → Run
collector_run i config trigger member now = record {
  id = i;
  target = config;
  trigger_type = trigger;
  member = member;
  status = queued;
  queued_at = none;
  started_at = some now;
  heartbeat_at = none;
  executor_token = none;
  finished_at = none;
  error_message = none;
}

abbrev pub sync_run : String → String → String → Option String → ℕ → Run
sync_run i source trigger member now = record {
  id = i;
  target = source;
  trigger_type = trigger;
  member = member;
  status = queued;
  queued_at = some now;
  started_at = none;
  heartbeat_at = none;
  executor_token = none;
  finished_at = none;
  error_message = none;
}

-- the claim of `execute_claimed`
abbrev pub is_claimable : String → Run → Bool
is_claimable i r = has_id i r && is_queued r

abbrev pub claimed : String → ℕ → Run → Run
claimed token now r = record r {
  status = running;
  started_at = some now;
  heartbeat_at = some now;
  executor_token = some token;
}

unfoldable pub claim : String → String → ℕ → List Run → List Run
claim i token now rows = update (is_claimable i) (claimed token now) rows

-- `status == "running" AND executor_token == token`
abbrev pub is_executed_by : String → Run → Bool
is_executed_by token r =
    is_running r && (elim r.executor_token [ none ↦ false | some k ↦ str_eq k token ])

abbrev pub is_run_of : String → String → Run → Bool
is_run_of i token r = has_id i r && is_executed_by token r

-- `message[:n]`
abbrev pub take_chars : ℕ → String → String
take_chars zero s = ""
take_chars (suc n) String.[] = ""
take_chars (suc n) (String.◌∷◌ c s) = String.◌∷◌ c (take_chars n s)

abbrev pub failed : String → ℕ → Run → Run
failed message now r = record r {
  status = failure;
  finished_at = some now;
  error_message = some message;
}

-- `_fail_run`
unfoldable pub fail_run : String → String → String → ℕ → List Run → List Run
fail_run i message token now rows =
    update (is_run_of i token) (failed (take_chars 2000 message) now) rows

-- `TargetLock.heartbeat`, on a session that holds the lock
unfoldable pub heartbeat : String → String → ℕ → List Run → List Run
heartbeat i token now rows =
    update (is_run_of i token) (λ r. record r { heartbeat_at = some now }) rows

-- `_last_sign_of_life(model) < cutoff`, which is not true of NULL
abbrev pub is_stale : ℕ → Run → Bool
is_stale cutoff r = elim r.heartbeat_at [
  | some t ↦ ltb t cutoff
  | none ↦ elim r.started_at [ some t ↦ ltb t cutoff | none ↦ false ]
]

abbrev pub is_reapable : ℕ → Run → Bool
is_reapable cutoff r = is_running r && is_stale cutoff r

abbrev pub reaped_message : String
reaped_message = "Interrupted: the process executing this run stopped before it finished"

-- the update of `_reap_run`
unfoldable pub reap_run : String → ℕ → ℕ → List Run → List Run
reap_run i cutoff now rows =
    update (λ r. has_id i r && is_reapable cutoff r) (failed reaped_message now) rows

-- `reap_once`: `is_free` says of which targets the lock can be taken
unfoldable pub reap_each : (is_free : String → Bool) → ℕ → ℕ → List Run → List Run → List Run
reap_each is_free cutoff now [] rows = rows
reap_each is_free cutoff now (s ∷ stale) rows =
    reap_each is_free cutoff now stale
      (if is_free s.target then reap_run s.id cutoff now rows else rows)

unfoldable pub reap_once : (is_free : String → Bool) → (grace now : ℕ) → List Run → List Run
reap_once is_free grace now rows =
    reap_each is_free (now - grace) now (select (is_reapable (now - grace)) rows) rows

-- ORDER BY: an insertion after the rows of a smaller value; NULL comes last
abbrev pub order_value : OrderColumn → Run → Option ℕ
order_value by_started_at r = r.started_at
order_value by_queued_at r = r.queued_at

abbrev pub is_before : Option ℕ → Option ℕ → Bool
is_before (some a) (some b) = ltb a b
is_before (some a) none = true
is_before none _ = false

insert_ordered : OrderColumn → Run → List Run → List Run
insert_ordered c r [] = r ∷ []
insert_ordered c r (q ∷ rows) =
    if is_before (order_value c q) (order_value c r)
    then q ∷ insert_ordered c r rows
    else r ∷ q ∷ rows

unfoldable pub order_by : OrderColumn → List Run → List Run
unfolding insert_ordered
order_by c [] = []
order_by c (r ∷ rows) = insert_ordered c r (order_by c rows)

-- `queued_run_ids`
unfoldable pub queued_run_ids : OrderColumn → ℕ → List Run → List String
queued_run_ids c limit rows = map (λ r. r.id) (take limit (order_by c (select is_queued rows)))
