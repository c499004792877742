-- ===== src/Scheduler/Guard.antt =====
-- `RunGuard` and `execute_claimed` of app/services/scheduler.py. What the lock's database session
-- answers to a statement, or that it fails, is an argument.
use ai_agent_first_trust_por.Prelude.{
  ℕ, String, Bool, true, false, not, Option, none, some, List, ◌==◌, is_some, count_by,
  if◌then◌else◌,
}
use Prim.Native.String.{◌++◌}
use ai_agent_first_trust_por.Scheduler.Runs.{
  Run, Status, running, is_queued, is_claimable, find_run, claim, fail_run,
}

-- a statement on the lock's session: `LockLostError`, `OwnershipUnknown`, or its result
pub data Reply (A : Type 0) : Type 0 where
  lock_lost : Reply A
  ownership_unknown : Reply A
  result : A → Reply A

pub record RunGuard : Type 0 where
  pub lost_reason : Option String
  pub stopped : Bool

abbrev pub fresh_guard : RunGuard
fresh_guard = record { lost_reason = none; stopped = false }

abbrev pub lost_lock : String
lost_lock = "the executor lost its target lock"

abbrev pub lost_lock_or_claim : String
lost_lock_or_claim = "the executor lost its target lock or its claim on the run"

abbrev pub lost_run : String
lost_run = "the run is no longer running under this executor"

-- `_mark_lost`: the first reason stays
unfoldable pub mark_lost : String → RunGuard → RunGuard
mark_lost reason g = record {
  lost_reason = elim g.lost_reason [ none ↦ some reason | some r ↦ some r ];
  stopped = true;
}

-- `beat`: the reply is the rowcount of the refresh
unfoldable pub beat : Reply ℕ → RunGuard → RunGuard × Bool
beat ownership_unknown g = (g, true)
beat lock_lost g = (mark_lost lost_lock g, false)
beat (result n) g = if n == 1 then (g, true) else (mark_lost lost_lock_or_claim g, false)

-- `_lock_still_held`
unfoldable pub lock_still_held : Reply Bool → Bool
lock_still_held lock_lost = false
lock_still_held ownership_unknown = true
lock_still_held (result held) = held

-- what `ownership` and, if it does not answer, `holds` say: whether the lock is held, and the
-- committed status of the run under the executor's token
unfoldable pub held_and_status : Reply (Bool × Option Status) → Reply Bool → Bool × Option Status
unfolding lock_still_held
held_and_status lock_lost holds = (false, none)
held_and_status ownership_unknown holds = (lock_still_held holds, some running)
held_and_status (result answer) holds = answer

abbrev pub says_running : Option Status → Bool
says_running none = false
says_running (some s) = elim s [ running ↦ true | _ ↦ false ]

-- `verify`: the guard afterwards, and whether the commit goes ahead
unfoldable pub verify :
    Bool → Reply (Bool × Option Status) → Reply Bool → RunGuard → RunGuard × Bool
verify postgres ownership holds g =
    if is_some g.lost_reason
    then (g, false)
    else if not postgres
    then (g, true)
    else let (held, status) = held_and_status ownership holds in
      if not held
      then (mark_lost lost_lock g, false)
      else if not (says_running status)
      then (mark_lost lost_run g, false)
      else (g, true)

-- what `kind.execute(run_id)` does: the table when it ends, its exception and the guard
pub data Raised : Type 0 where
  lock_lost_error : String → Raised
  exception : String → Raised

pub record Executed : Type 0 where
  pub table : List Run
  pub raised : Option Raised
  pub guard : RunGuard

-- the message for `_fail_run`
unfoldable pub error_of : Option Raised → Option String → String
error_of (some (lock_lost_error e)) lost_reason = "Interrupted: " ++ e
error_of (some (exception e)) lost_reason = "Run raised: " ++ e
error_of none none = "Run ended without recording a result"
-- an empty reason is none: `_mark_lost` never sets one
error_of none (some reason) = "Interrupted: " ++ reason

pub data Outcome : Type 0 where
  gone busy executed : Outcome

unfoldable pub execute_run :
    (execute : List Run → Executed) → String → String → ℕ → List Run → List Run × Outcome
execute_run execute i token finished table =
    let done = execute table in
    (fail_run i (error_of done.raised done.guard.lost_reason) token finished done.table, executed)

-- `execute_claimed`; `acquired` says of a target whether its lock could be taken, `others` is what
-- other sessions commit before the claim
unfoldable pub execute_claimed :
    (acquired : String → Bool) (others : List Run → List Run) (execute : List Run → Executed)
    → (i token : String) (now finished : ℕ) → List Run
    → List Run × Outcome
unfolding execute_run
execute_claimed acquired others execute i token now finished rows = elim (find_run i rows) [
  | none ↦ (rows, gone)
  | some run ↦
      if not (is_queued run)
      then (rows, gone)
      else if not (acquired run.target)
      then (rows, busy)
      else let table = others rows in
        let n = count_by (is_claimable i) table in
        if n == 1
        then execute_run execute i token finished (claim i token now table)
        else (claim i token now table, gone)
]
