-- ===== src/Scheduler/Ownership.antt =====
-- What `RunGuard` of app/services/scheduler.py relies on and what it ensures.
use ai_agent_first_trust_por.Prelude.{
  ℕ, String, Bool, true, false, ◌&&◌, Option, none, some, List, [], ◌∷◌, ◌≡◌, ◌≢◌, ◌↔◌, ◌⊎◌, refl,
  sym, ap, ◌∙◌, arith, count_by, str_eq, eq_iff, Bool-cases, inl, inr, find-holds, and-right,
  is_some,
}
use ai_agent_first_trust_por.Scheduler.Runs.{
  Run, Status, running, is_running, has_id, find_run, update, claim, claimed, fail_run, heartbeat,
  reap_run, is_claimable, is_run_of, is_executed_by, failed, take_chars, is_reapable,
  reaped_message,
}
use ai_agent_first_trust_por.Scheduler.Guard.{
  Reply, lock_lost, ownership_unknown, result, RunGuard, mark_lost, beat, lock_still_held,
  held_and_status, verify, Executed, error_of, executed, execute_run, execute_claimed,
}
use ai_agent_first_trust_por.Scheduler.Steps.{
  World, Step, Trace, here, then_step, enqueues, locks_target, unlocks_target, claims, beats,
  records, fails, reaps, record_run, holder, unlock,
}
use ai_agent_first_trust_por.Scheduler.Table.{find-update, find-append_some}

holder-unlock_other :
    (t u : String) (s s' : ℕ) (locks : List (String × ℕ))
    → s' ≢ s
    → holder t locks ≡ some s
    → holder t (unlock u s' locks) ≡ some s
unfolding holder unlock
holder-unlock_other t u s s' [] other h = cc
holder-unlock_other t u s s' (l ∷ locks) other h =
    ground (arith, holder-unlock_other t u s s' locks other)

holder-lock :
    (t u : String) (s s' : ℕ) (locks : List (String × ℕ))
    → holder u locks ≡ none
    → holder t locks ≡ some s
    → holder t ((u, s') ∷ locks) ≡ some s
unfolding holder
holder-lock t u s s' locks free h = elim (Bool-cases (str_eq u t)) [
  | inl e ↦ absurd (cc (free, h, ap (λ x. holder x locks) ((eq_iff u t).0 e)))
  | inr e ↦ rw e h
]

-- a row carries one token
token_unique :
    (o : Option String) (k token : String)
    → (elim o [ none ↦ false | some x ↦ str_eq x k ]) ≡ true
    → (elim o [ none ↦ false | some x ↦ str_eq x token ]) ≡ true
    → k ≡ token
token_unique none k token h h' = absurd (cc h)
token_unique (some x) k token h h' = sym ((eq_iff x k).0 h) ∙ (eq_iff x token).0 h'

-- another session's token is not this one
foreign_token :
    (owner : String → ℕ) (s s' : ℕ) (k token : String) (j : String) (r : Run)
    → s' ≢ s
    → owner k ≡ s
    → owner token ≡ s'
    → is_executed_by k r ≡ true
    → is_run_of j token r ≡ false
foreign_token owner s s' k token j r other own own' h = elim (Bool-cases (is_run_of j token r)) [
  | inr e ↦ e
  | inl e ↦
      let executed_by : is_executed_by token r ≡ true =
        and-right (has_id j r) (is_executed_by token r) e in
      let same : k ≡ token =
        token_unique r.executor_token k token (and-right (is_running r) _ h)
          (and-right (is_running r) _ executed_by) in
      absurd (other (sym own' ∙ ap owner (sym same) ∙ own))
]

module _ (owner : String → ℕ) (i k : String) (r : Run) (s : ℕ) (own : owner k ≡ s)
    (mine : is_executed_by k r ≡ true) where
  -- the run is as its executor knows it, and the target's lock is the executor's
  abbrev pub Held : World → Type 0
  Held w = (find_run i w.table ≡ some r) × (holder r.target w.locks ≡ some s)

  foreign-Step : (s' : ℕ) (w w' : World) → s' ≢ s → Step owner s' w w' → Held w → Held w'
  unfolding claim heartbeat fail_run reap_run record_run
  foreign-Step _ _ _ other (enqueues s' w q queue new alone) h =
      (find-append_some (has_id i) w.table (q ∷ []) r h.0, h.1)
  foreign-Step _ _ _ other (locks_target s' w t free) h =
      (h.0, holder-lock r.target t s s' w.locks free h.1)
  foreign-Step _ _ _ other (unlocks_target s' w t) h =
      (h.0, holder-unlock_other r.target t s s' w.locks other h.1)
  foreign-Step _ _ _ other (claims s' w q token now found held own') h = (
    ground (arith, find-update (is_claimable q.id) (claimed token now) i w.table r (λ x. refl) h.0),
    h.1,
  )
  foreign-Step _ _ _ other (beats s' w j token now own') h = (
    ground (
      arith,
      foreign_token owner s s' k token j r other own own' mine,
      find-update (is_run_of j token) (λ x. record x { heartbeat_at = some now }) i w.table r
          (λ x. refl) h.0,
    ),
    h.1,
  )
  foreign-Step _ _ _ other (records s' w j token f keeps own') h = (
    ground (
      arith,
      foreign_token owner s s' k token j r other own own' mine,
      find-update (is_run_of j token) f i w.table r (λ x. (keeps x).0) h.0,
    ),
    h.1,
  )
  foreign-Step _ _ _ other (fails s' w j token message now own') h = (
    ground (
      arith,
      foreign_token owner s s' k token j r other own own' mine,
      find-update (is_run_of j token) (failed (take_chars 2000 message) now) i w.table r (λ x. refl)
          h.0,
    ),
    h.1,
  )
  foreign-Step _ _ _ other (reaps s' w q cutoff now found held) h =
      elim (Bool-cases (str_eq r.id q.id)) [
        | inl e ↦
            let found_i : find_run i w.table ≡ some q =
              ap (λ x. find_run x w.table)
                (sym ((eq_iff r.id i).0 (find-holds (has_id i) w.table r h.0))
                  ∙ (eq_iff r.id q.id).0 e)
              ∙ found in
            let same : q.target ≡ r.target = ground arith in
            absurd (other (cc (held, h.1, ap (λ x. holder x w.locks) same)))
        | inr e ↦ (
          ground (
            arith,
            find-update (λ x. has_id q.id x && is_reapable cutoff x) (failed reaped_message now) i
                w.table r (λ x. refl) h.0,
          ),
          h.1,
        )
      ]

  -- While a session holds the lock of a run's target and the run is running under the session's
  -- token, no steps of other sessions change the run or take the lock.
  pub held_run-stands :
      (w w' : World)
      → Trace owner (λ s'. s' ≢ s) w w'
      → find_run i w.table ≡ some r
      → holder r.target w.locks ≡ some s
      → (find_run i w'.table ≡ some r) × (holder r.target w'.locks ≡ some s)
  held_run-stands _ _ (here w) found held = (found, held)
  held_run-stands _ _ (then_step s' w w' w'' other step rest) found held =
      let (found', held') = foreign-Step s' w w' other step (found, held) in
      held_run-stands w' w'' rest found' held'

-- On PostgreSQL the commit check goes ahead exactly while nothing was lost before and either the
-- lock's session answers that the lock is held and the run is running under the executor's token, or
-- its statement got no answer on the live session and the second question, about the lock alone, got
-- none either or the answer that it is held. When the check refuses, the guard has a reason.
pub verify-passes_iff :
    (ownership : Reply (Bool × Option Status)) (holds : Reply Bool) (g : RunGuard)
    → (((verify true ownership holds g).1 ≡ true) ↔ (
        (g.lost_reason ≡ none)
        × ((ownership ≡ result (true, some running))
            ⊎ ((ownership ≡ ownership_unknown)
                × ((holds ≡ ownership_unknown) ⊎ (holds ≡ result true))))))
      × ((verify true ownership holds g).1 ≡ false
          → is_some (verify true ownership holds g).0.lost_reason ≡ true)
unfolding verify held_and_status lock_still_held mark_lost
verify-passes_iff lock_lost holds g = ground arith
verify-passes_iff ownership_unknown holds g = ground arith
verify-passes_iff (result (held, none)) holds g = ground arith
verify-passes_iff (result (held, some status)) holds g = ground arith

-- what the heartbeat thread and the session's commits meet, in any order
pub data Event : Type 0 where
  beats_once : Reply ℕ → Event
  commits : Reply (Bool × Option Status) → Reply Bool → Event

unfoldable pub after_event : Event → RunGuard → RunGuard
after_event (beats_once reply) g = (beat reply g).0
after_event (commits ownership holds) g = (verify true ownership holds g).0

unfoldable pub after_events : List Event → RunGuard → RunGuard
after_events [] g = g
after_events (e ∷ events) g = after_events events (after_event e g)

lost_after_event :
    (e : Event) (g : RunGuard) (reason : String)
    → g.lost_reason ≡ some reason
    → (after_event e g).lost_reason ≡ some reason
unfolding after_event beat verify mark_lost held_and_status lock_still_held
lost_after_event (beats_once reply) g reason h = ground arith
lost_after_event (commits ownership holds) g reason h = ground arith

-- Once the guard has a reason, it keeps that reason through any heartbeats and commit checks, and
-- every later commit check refuses, whatever the database answers.
pub lost_forever :
    (events : List Event) (g : RunGuard) (reason : String)
    (ownership : Reply (Bool × Option Status)) (holds : Reply Bool)
    → g.lost_reason ≡ some reason
    → ((after_events events g).lost_reason ≡ some reason)
      × ((verify true ownership holds (after_events events g)).1 ≡ false)
unfolding after_events
lost_forever [] g reason ownership holds h = (h, unfold verify in ground arith)
lost_forever (e ∷ events) g reason ownership holds h =
    lost_forever events (after_event e g) reason ownership holds (lost_after_event e g reason h)

closed_run :
    (i message token : String) (now : ℕ) (rows : List Run)
    → count_by (is_run_of i token) (fail_run i message token now rows) ≡ 0
unfolding fail_run update
closed_run i message token now [] = refl
closed_run i message token now (x ∷ rows) = ground (arith, closed_run i message token now rows)

-- Whatever a claimed run's execution does, raises or loses, no run of its id is left running under
-- the executor's token when `execute_claimed` has executed it.
pub executed-closed :
    (acquired : String → Bool) (others : List Run → List Run) (execute : List Run → Executed)
    (i token : String) (now finished : ℕ) (rows : List Run)
    → (execute_claimed acquired others execute i token now finished rows).1 ≡ executed
    → count_by
        (is_run_of i token)
        (execute_claimed acquired others execute i token now finished rows).0
      ≡ 0
unfolding execute_claimed execute_run
executed-closed acquired others execute i token now finished rows h =
    let done : Executed = execute (claim i token now (others rows)) in
    ground
      (arith, closed_run i (error_of done.raised done.guard.lost_reason) token finished done.table)
