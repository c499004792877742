-- ===== src/Scheduler/Enqueue.antt =====
-- What `_enqueue` of app/services/scheduler.py comes back with.
use ai_agent_first_trust_por.Prelude.{
  ℕ, zero, suc, ◌+◌, ◌*◌, String, Bool, true, false, ◌&&◌, Option, none, some, List, [], ◌∷◌, ◌++◌,
  ◌≡◌, refl, sym, ap, ◌∙◌, arith, eq_refl, if◌then◌else◌, Option-cases, inl, inr, is_some, subst,
  not,
}
use ai_agent_first_trust_por.Scheduler.Runs.{
  Run, queued, is_active, has_target, find_run, active_run, Inserted, insert, Enqueued, returned,
  attempt, read_back, after_insert, unless_active, enqueue_attempts, enqueue, committed,
  other_conflict, active_conflict, integrity_error, active_run_conflict,
}
use ai_agent_first_trust_por.Scheduler.Table.{find-append_none}
use ai_agent_first_trust_por.Scheduler.ActiveRuns.{OneActive, insert-OneActive}

-- What is true of an outcome for a target: its table has at most one active run of any target, and a
-- run that is returned is the table's active run of the target.
abbrev pub IsSettled : String → Enqueued → Type 0
IsSettled t (returned run created table) = OneActive table × (active_run t table ≡ some run)
IsSettled t (integrity_error table) = OneActive table
IsSettled t (active_run_conflict table) = OneActive table

inserted_active :
    (run : Run) (rows : List Run)
    → run.status ≡ queued
    → active_run run.target rows ≡ none
    → active_run run.target (rows ++ run ∷ []) ≡ some run
unfolding active_run
inserted_active run rows queue alone =
    find-append_none (λ r. has_target run.target r && is_active r) rows (run ∷ []) alone
    ∙ ground (arith, eq_refl run.target)

committed-settled :
    (run : Run) (rows table : List Run)
    → insert run rows ≡ committed table
    → run.status ≡ queued
    → OneActive rows
    → OneActive table × (active_run run.target table ≡ some run)
unfolding insert
committed-settled run rows table h queue one =
    let (alone, same) : (active_run run.target rows ≡ none) × (rows ++ run ∷ [] ≡ table) =
      ground arith in
    (
      subst OneActive same (insert-OneActive run rows alone one),
      subst (λ x. active_run run.target x ≡ some run) same (inserted_active run rows queue alone),
    )

module _ (others : ℕ → List Run → List Run) (build : ℕ → Run) (target : String)
    (keeps : (n : ℕ) (rows : List Run) → OneActive rows → OneActive (others n rows))
    (targets : (n : ℕ) → (build n).target ≡ target)
    (queues : (n : ℕ) → (build n).status ≡ queued) where
  read_back-IsSettled :
      (o : Option Run) (rows : List Run) (rest : List Run → Enqueued)
      → active_run target rows ≡ o
      → OneActive rows
      → IsSettled target (rest rows)
      → IsSettled target (read_back o rows rest)
  unfolding read_back
  read_back-IsSettled none rows rest e one next = next
  read_back-IsSettled (some r) rows rest e one next = (one, e)

  insert-IsSettled :
      (o : Inserted) (after : List Run → List Run) (run : Run) (rows : List Run)
      (rest : List Run → Enqueued)
      → insert run rows ≡ o
      → run.target ≡ target
      → run.status ≡ queued
      → OneActive rows
      → OneActive (after rows)
      → IsSettled target (rest (after rows))
      → IsSettled target (after_insert o after run rows rest)
  unfolding after_insert
  insert-IsSettled (committed table) after run rows rest e at_target queue one one' next =
      let (one_of, active) = committed-settled run rows table e queue one in
      (one_of, ap (λ t. active_run t table) (sym at_target) ∙ active)
  insert-IsSettled other_conflict after run rows rest e at_target queue one one' next = one
  insert-IsSettled active_conflict after run rows rest e at_target queue one one' next =
      read_back-IsSettled (active_run run.target (after rows)) (after rows) rest
        (ap (λ t. active_run t (after rows)) (sym at_target)) one' next

  attempts-IsSettled :
      (n : ℕ) (rows : List Run)
      → OneActive rows
      → IsSettled target (enqueue_attempts others build n rows)
  unfolding enqueue_attempts attempt
  attempts-IsSettled zero rows one = one
  attempts-IsSettled (suc n) rows one =
      let before : List Run = others (2 * n + 1) rows in
      let one_before : OneActive before = keeps (2 * n + 1) rows one in
      let one_after : OneActive (others (2 * n) before) = keeps (2 * n) before one_before in
      insert-IsSettled (insert (build n) before) (others (2 * n)) (build n) before
        (enqueue_attempts others build n) refl (targets n) (queues n) one_before one_after
        (attempts-IsSettled n (others (2 * n) before) one_after)

  unless-IsSettled :
      (o : Option Run) (rows : List Run) (rest : Enqueued)
      → active_run target rows ≡ o
      → OneActive rows
      → IsSettled target rest
      → IsSettled target (unless_active o rows rest)
  unfolding unless_active
  unless-IsSettled none rows rest e one next = next
  unless-IsSettled (some r) rows rest e one next = (one, e)

  -- Whatever other sessions commit between its statements, as long as they keep at most one active
  -- run of each target, so does enqueueing; and a run that it returns, created or not, is queued or
  -- running for the target in the table at that time.
  pub enqueue-IsSettled :
      (rows : List Run) → OneActive rows → IsSettled target (enqueue others build target rows)
  unfolding enqueue
  enqueue-IsSettled rows one =
      unless-IsSettled (active_run target rows) rows (enqueue_attempts others build 2 rows) refl one
        (attempts-IsSettled 2 rows one)

module _ (build : ℕ → Run) (target : String) (targets : (n : ℕ) → (build n).target ≡ target)
    (queues : (n : ℕ) → (build n).status ≡ queued) where
  -- With no other session at work and an unused id, enqueueing always returns a run: the target's
  -- active run if it has one, with the table as it was, or else a new one, with it appended. A second
  -- call returns the same run and creates nothing.
  pub enqueue-coalesces :
      (rows : List Run)
      → find_run (build 1).id rows ≡ none
      → (run : Run) × (created : Bool) × (table : List Run) × (enqueue (λ n x. x) build target rows
          ≡ returned run created table)
        × (enqueue (λ n x. x) build target table ≡ returned run false table)
        × (table ≡ (if created then rows ++ run ∷ [] else rows))
        × (created ≡ not (is_some (active_run target rows)))
  unfolding enqueue enqueue_attempts attempt after_insert insert unless_active
  enqueue-coalesces rows unused = elim (Option-cases (active_run target rows)) [
    | inr (r, e) ↦ (r, false, rows, rw e refl, rw e refl, refl, rw e refl)
    | inl e ↦
        let alone : active_run (build 1).target rows ≡ none =
          ap (λ t. active_run t rows) (targets 1) ∙ e in
        let second : active_run target (rows ++ build 1 ∷ []) ≡ some (build 1) =
          ap (λ t. active_run t (rows ++ build 1 ∷ [])) (sym (targets 1))
          ∙ inserted_active (build 1) rows (queues 1) alone in
        (
          build 1,
          true,
          rows ++ build 1 ∷ [],
          rw e (rw unused (rw (queues 1) (rw alone refl))),
          rw second refl,
          refl,
          rw e refl,
        )
  ]
