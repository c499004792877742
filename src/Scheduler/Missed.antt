-- ===== src/Scheduler/Missed.antt =====
-- Scheduled and missed fires: `enqueue_scheduled`, `first_fire_between` and `enqueue_missed_fire` of
-- app/services/scheduler.py. The next fire of a cron expression is APScheduler's; an expression that
-- is not valid has no trigger.
use Prim.Native.Nat.{max}
use ai_agent_first_trust_por.Prelude.{
  ℕ, ◌+◌, ◌≤◌, ◌<◌, String, Bool, true, ◌&&◌, Option, none, some, List, [], ◌∷◌, ◌≡◌, refl, ap, ◌∙◌,
  arith, ltb, if◌then◌else◌, Bool-cases, Option-cases, inl, inr, and-right,
}
use ai_agent_first_trust_por.Scheduler.Runs.{
  Run, OrderColumn, order_value, has_target, Enqueued, returned, integrity_error,
  active_run_conflict, enqueue,
}

-- the columns of a `collector_config` or `git_sources` row that are read
pub record Target : Type 0 where
  pub id : String
  pub enabled : Bool
  pub created_at : Option ℕ

pub data Scheduled : Type 0 where
  nothing : Scheduled
  queued_run : (run : Run) (created : Bool) (table : List Run) → Scheduled
  raises : Scheduled

-- `ActiveRunConflict` coalesces; another `IntegrityError` is raised
coalesced : Enqueued → Scheduled
coalesced (returned run created table) = queued_run run created table
coalesced (active_run_conflict table) = nothing
coalesced (integrity_error table) = raises

-- `enqueue_scheduled`; `has_targets` says whether the kind has a target model
unfoldable pub enqueue_scheduled :
    (others : ℕ → List Run → List Run) (build : ℕ → Run) (has_targets : Bool)
    → Option Target
    → List Run
    → Scheduled
unfolding coalesced
enqueue_scheduled others build has_targets none rows = nothing
enqueue_scheduled others build has_targets (some target) rows =
    if has_targets && target.enabled
    then coalesced (enqueue others build target.id rows)
    else nothing

early : ℕ → Option ℕ → Option ℕ
early before none = none
early before (some fire) = if ltb fire before then some fire else none

-- `first_fire_between`, an instant being a number of microseconds
unfoldable pub first_fire_between : (trigger : Option (ℕ → Option ℕ)) (after before : ℕ) → Option ℕ
unfolding early
first_fire_between none after before = none
first_fire_between (some next_fire) after before = early before (next_fire (after + 1))

-- `max(filter(None, ...))` of two instants
abbrev pub later : Option ℕ → Option ℕ → Option ℕ
later none b = b
later (some a) none = some a
later (some a) (some b) = some (max a b)

-- SELECT max(...) WHERE target = ...
unfoldable pub latest_run : OrderColumn → String → List Run → Option ℕ
latest_run c t [] = none
latest_run c t (r ∷ rows) =
    let rest = latest_run c t rows in if has_target t r then later (order_value c r) rest else rest

pub data CaughtUp : Type 0 where
  no_fire : CaughtUp
  caught_up : (fire : ℕ) (run : Run) (created : Bool) (table : List Run) → CaughtUp
  value_error error : CaughtUp

with_fire : ℕ → Scheduled → CaughtUp
with_fire fire nothing = no_fire
with_fire fire raises = error
with_fire fire (queued_run run created table) = caught_up fire run created table

on_fire : Option ℕ → Scheduled → CaughtUp
on_fire none scheduled = no_fire
on_fire (some fire) scheduled = with_fire fire scheduled

-- `max` of nothing raises
since_when : (trigger : Option (ℕ → Option ℕ)) → Option ℕ → (until : ℕ) → Scheduled → CaughtUp
since_when trigger none until scheduled = value_error
since_when trigger (some since) until scheduled =
    on_fire (first_fire_between trigger since until) scheduled

-- `enqueue_missed_fire`
unfoldable pub enqueue_missed_fire :
    (others : ℕ → List Run → List Run) (build : ℕ → Run) (has_targets : Bool) (column : OrderColumn)
    (trigger : Option (ℕ → Option ℕ)) (until : ℕ)
    → Option Target
    → List Run
    → CaughtUp
unfolding since_when on_fire with_fire
enqueue_missed_fire others build has_targets column trigger until none rows = no_fire
enqueue_missed_fire others build has_targets column trigger until (some target) rows =
    if has_targets && target.enabled
    then since_when trigger (later target.created_at (latest_run column target.id rows)) until
        (enqueue_scheduled others build has_targets (some target) rows)
    else no_fire

-- a fire that `first_fire_between` gives is strictly between
between :
    (trigger : Option (ℕ → Option ℕ)) (after before fire : ℕ)
    → ((next_fire : ℕ → Option ℕ)
        → trigger ≡ some next_fire
        → (t f : ℕ) → next_fire t ≡ some f
        → t ≤ f)
    → first_fire_between trigger after before ≡ some fire
    → (after < fire) × (fire < before)
unfolding first_fire_between early
between none after before fire onward h = cc
between (some next_fire) after before fire onward h = elim (Option-cases (next_fire (after + 1))) [
  | inl e ↦ cc (rw (first_fire_between, early, e) at h)
  | inr (f, e) ↦ ground (arith, onward next_fire refl (after + 1) f e)
]

later-bounds :
    (a b : Option ℕ) (m : ℕ)
    → later a b ≡ some m
    → ((x : ℕ) → a ≡ some x → x ≤ m) × ((y : ℕ) → b ≡ some y → y ≤ m)
later-bounds none b m h = (λ x e. cc e, λ y e. ground arith)
later-bounds (some a) none m h = (λ x e. ground arith, λ y e. cc e)
later-bounds (some a) (some b) m h = (λ x e. ground arith, λ y e. ground arith)

no_fire_found :
    (fire : ℕ) (run : Run) (created : Bool) (table : List Run) (scheduled : Scheduled)
    → on_fire none scheduled ≡ caught_up fire run created table
    → ⊥
unfolding on_fire
no_fire_found fire run created table scheduled h = cc

fire_found :
    (f fire : ℕ) (run : Run) (created : Bool) (table : List Run) (scheduled : Scheduled)
    → on_fire (some f) scheduled ≡ caught_up fire run created table
    → f ≡ fire
unfolding on_fire with_fire
fire_found f fire run created table nothing h = cc
fire_found f fire run created table raises h = cc
fire_found f fire run created table (queued_run r c t) h = cc

since-fire :
    (trigger : Option (ℕ → Option ℕ)) (o : Option ℕ) (until : ℕ) (scheduled : Scheduled) (fire : ℕ)
    (run : Run) (created : Bool) (table : List Run)
    → since_when trigger o until scheduled ≡ caught_up fire run created table
    → (since : ℕ) × (o ≡ some since) × (first_fire_between trigger since until ≡ some fire)
unfolding since_when
since-fire trigger none until scheduled fire run created table h = cc
since-fire trigger (some since) until scheduled fire run created table h =
    elim (Option-cases (first_fire_between trigger since until)) [
      | inl e ↦ absurd (no_fire_found fire run created table scheduled (rw e at h))
      | inr (f, e) ↦
          (since, refl, e ∙ ap some (fire_found f fire run created table scheduled (rw e at h)))
    ]

-- A missed fire is caught up only for an enabled target, only if it lies before `until`, and only if
-- the target was created and each of its runs was queued or started before that fire. So once a run
-- of the target is queued at or after `until`, the same catch-up queues nothing more. The trigger's
-- next fire is never before the instant that it is asked for.
pub missed_fire-is_new :
    (others : ℕ → List Run → List Run) (build : ℕ → Run) (has_targets : Bool) (column : OrderColumn)
    (trigger : Option (ℕ → Option ℕ)) (until : ℕ) (target : Target) (rows : List Run) (fire : ℕ)
    (run : Run) (created : Bool) (table : List Run)
    → ((next_fire : ℕ → Option ℕ)
        → trigger ≡ some next_fire
        → (t f : ℕ) → next_fire t ≡ some f
        → t ≤ f)
    → enqueue_missed_fire others build has_targets column trigger until (some target) rows
      ≡ caught_up fire run created table
    → (target.enabled ≡ true)
      × (fire < until)
      × ((c : ℕ) → target.created_at ≡ some c → c < fire)
      × ((l : ℕ) → latest_run column target.id rows ≡ some l → l < fire)
unfolding enqueue_missed_fire
missed_fire-is_new others build has_targets column trigger until target rows fire run created table
      onward h =
    elim (Bool-cases (has_targets && target.enabled)) [
      | inr e ↦ cc (rw e at h)
      | inl e ↦
          let (since, is, first) =
            since-fire trigger (later target.created_at (latest_run column target.id rows)) until
              (enqueue_scheduled others build has_targets (some target) rows) fire run created table
              (rw e at h) in
          let (after, before) = between trigger since until fire onward first in
          let (above_created, above_latest) =
            later-bounds target.created_at (latest_run column target.id rows) since is in
          (
            and-right has_targets target.enabled e,
            before,
            λ c g. omega (arith, above_created c g),
            λ l g. omega (arith, above_latest l g),
          )
    ]
