-- ===== src/Scheduler/Examples.antt =====
-- Runs of two sessions, to which the results on app/services/scheduler.py are applied.
use ai_agent_first_trust_por.Prelude.{
  ℕ, ◌+◌, ◌*◌, ◌/◌, ap, ◌∙◌, ◌≤◌, String, Bool, true, false, ◌&&◌, Option, none, some, List, [],
  ◌∷◌, ◌++◌, ◌≡◌, ◌≢◌, ◌↔◌, ◌⊎◌, refl, arith, count_by, str_eq, is_some, subst, eq_iff,
  if◌then◌else◌, Bool-cases, inl, inr,
}
use ai_agent_first_trust_por.Scheduler.Runs.{
  by_started_at, enqueue_attempts, insert, Run, Status, has_id, running, success, collector_run,
  find_run, active_run, claimed, is_reapable, failed, reaped_message, reap_once, enqueue, fail_run,
}
use ai_agent_first_trust_por.Scheduler.Guard.{
  Reply, ownership_unknown, result, RunGuard, fresh_guard, lost_lock, verify, Executed, exception,
}
use ai_agent_first_trust_por.Scheduler.Steps.{
  World, Trace, here, then_step, enqueues, fails, holder,
}
use ai_agent_first_trust_por.Scheduler.ActiveRuns.{OneActive, Trace-OneActive, finished_run-stands}
use ai_agent_first_trust_por.Scheduler.Ownership.{
  held_run-stands, verify-passes_iff, Event, beats_once, commits,
}
use ai_agent_first_trust_por.Scheduler.Enqueue.{IsSettled, enqueue-IsSettled}
use ai_agent_first_trust_por.Scheduler.Duties.{JobKey}
use ai_agent_first_trust_por.Scheduler.Missed.{
  Target, first_fire_between, latest_run, enqueue_scheduled, enqueue_missed_fire, caught_up,
}
use ai_agent_first_trust_por.Scheduler.Reaper.{UniqueIds, reap_once-find}

-- session 1 makes the token `one`, session 2 every other one
abbrev owner : String → ℕ
owner token = if str_eq token "one" then 1 else 2

abbrev waiting : Run
waiting = collector_run "r" "c" "manual" (some "ann") 5

abbrev other_run : Run
other_run = collector_run "q" "d" "scheduled" none 7

abbrev done_run : Run
done_run = record (collector_run "p" "c" "manual" none 2) { status = success; finished_at = some 4 }

abbrev run_in_hand : Run
run_in_hand = claimed "one" 9 waiting

-- session 1 has claimed the run of `c`
abbrev before : World
before = record { table = done_run ∷ run_in_hand ∷ []; locks = ("c", 1) ∷ [] }

abbrev middle : World
middle = record before { table = before.table ++ other_run ∷ [] }

abbrev later : World
later = record middle { table = fail_run "r" "late" "two" 20 middle.table }

Anyone : ℕ → Type 0
Anyone s = Unit

-- Session 2 enqueues a run of `d`, then fails the run of `c` under a token that is not its own.
steps : (who : ℕ → Type 0) → who 2 → Trace owner who before later
unfolding active_run
steps who two =
    then_step 2 before middle later two (enqueues 2 before other_run refl refl refl)
      (then_step 2 middle later later two (fails 2 middle "r" "two" "late" 20 refl) (here later))

before-OneActive : OneActive before.table
before-OneActive t = ground arith

Trace-OneActive_example : OneActive later.table
unfolding Anyone
Trace-OneActive_example =
    Trace-OneActive owner Anyone before later (steps Anyone tt) before-OneActive

finished_run-stands_example : find_run "p" later.table ≡ some done_run
unfolding Anyone
finished_run-stands_example =
    finished_run-stands owner Anyone before later "p" done_run (steps Anyone tt) refl refl

held : holder "c" before.locks ≡ some 1
unfolding holder
held = refl

abbrev two : ℕ
two = 2

abbrev one : ℕ
one = 1

two_is_not_one : two ≢ one
two_is_not_one h = omega arith

held_run-stands_example :
    (find_run "r" later.table ≡ some run_in_hand) × (holder "c" later.locks ≡ some 1)
held_run-stands_example =
    held_run-stands owner "r" "one" run_in_hand 1 refl refl before later
      (steps (λ s. s ≢ 1) two_is_not_one) refl held

abbrev silent : Reply (Bool × Option Status)
silent = ownership_unknown

abbrev held_reply : Reply Bool
held_reply = result true

verify-passes_iff_example :
    (((verify true silent held_reply fresh_guard).1 ≡ true) ↔ (
      (fresh_guard.lost_reason ≡ none)
      × ((silent ≡ result (true, some running))
          ⊎ ((silent ≡ ownership_unknown)
              × ((held_reply ≡ ownership_unknown) ⊎ (held_reply ≡ result true))))))
    × ((verify true silent held_reply fresh_guard).1 ≡ false
        → is_some (verify true silent held_reply fresh_guard).0.lost_reason ≡ true)
verify-passes_iff_example = verify-passes_iff silent held_reply fresh_guard

abbrev lost_guard : RunGuard
lost_guard = record { lost_reason = some lost_lock; stopped = true }

abbrev replies : List Event
replies = beats_once (result 1) ∷ commits (result (true, some running)) ownership_unknown ∷ []

-- an execution that raises
abbrev crash : List Run → Executed
crash rows = record { table = rows; raised = some (exception "boom"); guard = fresh_guard }

clear-OneActive : (n : ℕ) (rows : List Run) → OneActive rows → OneActive []
clear-OneActive n rows one t = omega arith

enqueue-IsSettled_example :
    IsSettled "c" (enqueue (λ n rows. []) (λ n. waiting) "c" (done_run ∷ []))
enqueue-IsSettled_example =
    enqueue-IsSettled (λ n rows. []) (λ n. waiting) "c" clear-OneActive (λ n. refl) (λ n. refl)
      (done_run ∷ []) (λ t. ground arith)

before-UniqueIds : UniqueIds before.table
before-UniqueIds i = elim (Bool-cases (str_eq "p" i)) [
  | inl e ↦ subst (λ x. count_by (has_id x) before.table ≤ 1) ((eq_iff "p" i).0 e) (omega arith)
  | inr e ↦ ground arith
]

reap_once-find_example :
    find_run "r" (reap_once (λ t. true) 5 100 before.table)
    ≡ some (
        if is_reapable 95 run_in_hand && true
        then failed reaped_message 100 run_in_hand
        else run_in_hand)
reap_once-find_example =
    reap_once-find (λ t. true) 5 100 before.table "r" run_in_hand before-UniqueIds refl

-- a schedule that fires at every tenth instant
abbrev next_tenth : ℕ → Option ℕ
next_tenth t = some ((t + 9) / 10 * 10)

next_tenth-onward :
    (next_fire : ℕ → Option ℕ)
    → some next_tenth ≡ some next_fire
    → (t f : ℕ) → next_fire t ≡ some f
    → t ≤ f
next_tenth-onward next_fire e t f h =
    let same : next_tenth ≡ next_fire = cc e in
    let value : some ((t + 9) / 10 * 10) ≡ some f = ap (λ g. g t) same ∙ h in ground arith

abbrev collector : Target
collector = record { id = "c"; enabled = true; created_at = some 1 }

abbrev fresh_run : Run
fresh_run = collector_run "n" "c" "scheduled" none 30

abbrev fire : ℕ
fire = 10

abbrev until : ℕ
until = 25

caught :
    enqueue_missed_fire
      (λ n x. x)
      (λ n. fresh_run)
      true
      by_started_at
      (some next_tenth)
      until
      (some collector)
      (done_run ∷ [])
    ≡ caught_up fire fresh_run true (done_run ∷ fresh_run ∷ [])
unfolding enqueue_missed_fire latest_run first_fire_between enqueue_scheduled enqueue active_run
    enqueue_attempts insert
caught = refl

abbrev in_hand : List JobKey
in_hand = ("collector", "r") ∷ []

abbrev waiting_keys : List JobKey
waiting_keys = ("collector", "r") ∷ ("git_sync", "s") ∷ ("git_sync", "t") ∷ []
