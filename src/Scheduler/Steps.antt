-- ===== src/Scheduler/Steps.antt =====
-- The sessions of app/services/scheduler.py at work on one kind's table and its target locks, one
-- statement at a time. A session is a number; `owner` says which session made a token
-- (`uuid.uuid4()`), so no two sessions make the same one.
use ai_agent_first_trust_por.Prelude.{
  ℕ, String, Option, none, some, List, [], ◌∷◌, ◌++◌, ◌≡◌, ◌==◌, ◌&&◌, not, ◌≢◌, str_eq, select,
  if◌then◌else◌,
}
use ai_agent_first_trust_por.Scheduler.Runs.{
  Run, queued, is_run_of, find_run, active_run, update, claim, fail_run, heartbeat, reap_run,
}

-- who holds a target's advisory lock
pub record World : Type 0 where
  pub table : List Run
  pub locks : List (String × ℕ)

unfoldable pub holder : String → List (String × ℕ) → Option ℕ
holder t [] = none
holder t (l ∷ locks) = let rest = holder t locks in if str_eq l.0 t then some l.1 else rest

-- `pg_advisory_unlock`, and the end of the session
unfoldable pub unlock : String → ℕ → List (String × ℕ) → List (String × ℕ)
unlock t s locks = select (λ l. not (str_eq l.0 t && l.1 == s)) locks

-- the executor's own record of a run's progress or result
unfoldable pub record_run : String → String → (Run → Run) → List Run → List Run
record_run i token f rows = update (is_run_of i token) f rows

-- a change that leaves a run's id, target, token and, while it is unfinished, that it is active
abbrev pub Recording : (Run → Run) → Type 0
Recording f =
    (r : Run)
    → ((f r).id ≡ r.id)
      × ((f r).target ≡ r.target)
      × ((f r).executor_token ≡ r.executor_token)
      × ((f r).status ≢ queued)

module _ (owner : String → ℕ) where
  pub data Step : ℕ → World → World → Type 0 where
    -- a committed insert of `_enqueue`
    enqueues :
        (s : ℕ) (w : World) (r : Run)
        → r.status ≡ queued
        → find_run r.id w.table ≡ none
        → active_run r.target w.table ≡ none
        → Step s w (record w { table = w.table ++ r ∷ [] })
    -- `acquire`
    locks_target :
        (s : ℕ) (w : World) (t : String)
        → holder t w.locks ≡ none
        → Step s w (record w { locks = (t, s) ∷ w.locks })
    -- `release`, or the session ends
    unlocks_target :
        (s : ℕ) (w : World) (t : String) → Step s w (record w { locks = unlock t s w.locks })
    -- the claim
    claims :
        (s : ℕ) (w : World) (r : Run) (token : String) (now : ℕ)
        → find_run r.id w.table ≡ some r
        → holder r.target w.locks ≡ some s
        → owner token ≡ s
        → Step s w (record w { table = claim r.id token now w.table })
    -- `heartbeat`
    beats :
        (s : ℕ) (w : World) (i token : String) (now : ℕ)
        → owner token ≡ s
        → Step s w (record w { table = heartbeat i token now w.table })
    -- a commit of the executing session that `verify` lets through
    records :
        (s : ℕ) (w : World) (i token : String) (f : Run → Run)
        → Recording f
        → owner token ≡ s
        → Step s w (record w { table = record_run i token f w.table })
    -- `_fail_run`
    fails :
        (s : ℕ) (w : World) (i token message : String) (now : ℕ)
        → owner token ≡ s
        → Step s w (record w { table = fail_run i message token now w.table })
    -- the update of `_reap_run`, under the target lock
    reaps :
        (s : ℕ) (w : World) (r : Run) (cutoff now : ℕ)
        → find_run r.id w.table ≡ some r
        → holder r.target w.locks ≡ some s
        → Step s w (record w { table = reap_run r.id cutoff now w.table })

  -- a sequence of steps of the sessions that `who` admits
  pub data Trace (who : ℕ → Type 0) : World → World → Type 0 where
    here : (w : World) → Trace who w w
    then_step :
        (s : ℕ) (w w' w'' : World) → who s → Step s w w' → Trace who w' w'' → Trace who w w''
