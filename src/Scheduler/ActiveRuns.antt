-- ===== src/Scheduler/ActiveRuns.antt =====
-- What the steps of app/services/scheduler.py do to active runs and to finished ones.
use ai_agent_first_trust_por.Prelude.{
  ℕ, ◌≤◌, String, true, false, ◌&&◌, none, some, List, [], ◌∷◌, ◌++◌, ◌≡◌, refl, sym, ap, ◌∙◌,
  arith, count_by, str_eq, eq_iff, Bool-cases, inl, inr,
}
use ai_agent_first_trust_por.Scheduler.Runs.{
  Run, is_active, has_id, find_run, active_run, claim, claimed, fail_run, heartbeat, reap_run,
  is_claimable, is_run_of, failed, take_chars, is_reapable, reaped_message,
}
use ai_agent_first_trust_por.Scheduler.Steps.{
  World, Step, Trace, here, then_step, enqueues, locks_target, unlocks_target, claims, beats,
  records, fails, reaps, record_run, Recording,
}
use ai_agent_first_trust_por.Scheduler.Table.{
  is_active_of, find-update, count-update, count-find-none, count-append, find-append_some,
}

-- No target has two runs that are queued or running.
abbrev pub OneActive : List Run → Type 0
OneActive rows = (t : String) → count_by (is_active_of t) rows ≤ 1

pub insert-OneActive :
    (r : Run) (rows : List Run)
    → active_run r.target rows ≡ none
    → OneActive rows
    → OneActive (rows ++ r ∷ [])
unfolding active_run
insert-OneActive r rows alone one t = elim (Bool-cases (str_eq r.target t)) [
  | inl e ↦
      let none_of : count_by (is_active_of r.target) rows ≡ 0 =
        count-find-none (is_active_of r.target) rows alone in
      let same : r.target ≡ t = (eq_iff r.target t).0 e in
      let none_of' : count_by (is_active_of t) rows ≡ 0 =
        ap (λ u. count_by (is_active_of u) rows) (sym same) ∙ none_of in
      ground (arith, count-append (is_active_of t) rows (r ∷ []))
  | inr e ↦ ground (arith, count-append (is_active_of t) rows (r ∷ []), one t)
]

recorded_active :
    (f : Run → Run) (i token t : String) (x : Run)
    → Recording f
    → is_run_of i token x ≡ true
    → is_active_of t (f x) ≡ true
    → is_active_of t x ≡ true
recorded_active f i token t x keeps p a = ground (arith, keeps x)

Step-OneActive :
    (owner : String → ℕ) (s : ℕ) (w w' : World)
    → Step owner s w w'
    → OneActive w.table
    → OneActive w'.table
unfolding claim heartbeat fail_run reap_run record_run
Step-OneActive owner _ _ _ (enqueues s w r queue new alone) one =
    insert-OneActive r w.table alone one
Step-OneActive owner _ _ _ (locks_target s w t free) one = one
Step-OneActive owner _ _ _ (unlocks_target s w t) one = one
Step-OneActive owner _ _ _ (claims s w r token now found held own) one = λ t. ground (
  arith,
  one t,
  count-update (is_active_of t) (is_claimable r.id) (claimed token now) w.table
      (λ x p q. ground arith),
)
Step-OneActive owner _ _ _ (beats s w i token now own) one = λ t. ground (
  arith,
  one t,
  count-update (is_active_of t) (is_run_of i token) (λ r. record r { heartbeat_at = some now })
      w.table (λ x p q. q),
)
Step-OneActive owner _ _ _ (records s w i token f keeps own) one = λ t. ground (
  arith,
  one t,
  count-update (is_active_of t) (is_run_of i token) f w.table
      (λ x. recorded_active f i token t x keeps),
)
Step-OneActive owner _ _ _ (fails s w i token message now own) one = λ t. ground (
  arith,
  one t,
  count-update (is_active_of t) (is_run_of i token) (failed (take_chars 2000 message) now) w.table
      (λ x p q. ground arith),
)
Step-OneActive owner _ _ _ (reaps s w r cutoff now found held) one = λ t. ground (
  arith,
  one t,
  count-update (is_active_of t) (λ x. has_id r.id x && is_reapable cutoff x)
      (failed reaped_message now) w.table (λ x p q. ground arith),
)

-- If no target has two active runs, none has two after any steps of any sessions.
pub Trace-OneActive :
    (owner : String → ℕ) (who : ℕ → Type 0) (w w' : World)
    → Trace owner who w w'
    → OneActive w.table
    → OneActive w'.table
Trace-OneActive owner who _ _ (here w) one = one
Trace-OneActive owner who _ _ (then_step s w w' w'' me step rest) one =
    Trace-OneActive owner who w' w'' rest (Step-OneActive owner s w w' step one)

Step-keeps_finished :
    (owner : String → ℕ) (s : ℕ) (w w' : World) (i : String) (r : Run)
    → Step owner s w w'
    → find_run i w.table ≡ some r
    → is_active r ≡ false
    → find_run i w'.table ≡ some r
unfolding claim heartbeat fail_run reap_run record_run
Step-keeps_finished owner _ _ _ i r (enqueues s w q queue new alone) h done =
    find-append_some (has_id i) w.table (q ∷ []) r h
Step-keeps_finished owner _ _ _ i r (locks_target s w t free) h done = h
Step-keeps_finished owner _ _ _ i r (unlocks_target s w t) h done = h
Step-keeps_finished owner _ _ _ i r (claims s w q token now found held own) h done =
    ground (arith, find-update (is_claimable q.id) (claimed token now) i w.table r (λ x. refl) h)
Step-keeps_finished owner _ _ _ i r (beats s w j token now own) h done = ground (
  arith,
  find-update (is_run_of j token) (λ x. record x { heartbeat_at = some now }) i w.table r
      (λ x. refl) h,
)
Step-keeps_finished owner _ _ _ i r (records s w j token f keeps own) h done =
    ground (arith, find-update (is_run_of j token) f i w.table r (λ x. (keeps x).0) h)
Step-keeps_finished owner _ _ _ i r (fails s w j token message now own) h done = ground (
  arith,
  find-update (is_run_of j token) (failed (take_chars 2000 message) now) i w.table r (λ x. refl) h,
)
Step-keeps_finished owner _ _ _ i r (reaps s w q cutoff now found held) h done = ground (
  arith,
  find-update (λ x. has_id q.id x && is_reapable cutoff x) (failed reaped_message now) i w.table r
      (λ x. refl) h,
)

-- A run that is neither queued nor running keeps every column through any steps of any sessions:
-- no claim, heartbeat, late result, failure or reaper changes it.
pub finished_run-stands :
    (owner : String → ℕ) (who : ℕ → Type 0) (w w' : World) (i : String) (r : Run)
    → Trace owner who w w'
    → find_run i w.table ≡ some r
    → is_active r ≡ false
    → find_run i w'.table ≡ some r
finished_run-stands owner who _ _ i r (here w) h done = h
finished_run-stands owner who _ _ i r (then_step s w w' w'' me step rest) h done =
    finished_run-stands owner who w' w'' i r rest (Step-keeps_finished owner s w w' i r step h done)
      done
