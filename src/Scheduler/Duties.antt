-- ===== src/Scheduler/Duties.antt =====
-- The leader's periodic tasks and its dispatching in app/services/scheduler.py. The tasks' own
-- functions are not modelled: one that raises is logged, and the leader goes on. Instants are
-- numbers of one unit.
use ai_agent_first_trust_por.Prelude.{
  ℕ, ◌-◌, ◌≤◌, String, Bool, true, false, not, ◌&&◌, ◌||◌, Option, none, some, List, [], ◌∷◌, ◌++◌,
  ◌≡◌, refl, sym, ap, ◌∙◌, arith, ltb, leb, ◌==◌, str_eq, any, length, length-append, any-append,
  append_assoc, append-nil, if◌then◌else◌, Bool-cases, inl, inr,
}
use ai_agent_first_trust_por.Scheduler.Reaper.{str_eq_comm}

-- `PeriodicTask`, without its function
pub record PeriodicTask : Type 0 where
  pub name : String
  pub interval : ℕ

-- `_periodic[name] = ...`: a `dict` keeps the place of a name that it has
unfoldable pub put_task : PeriodicTask → List PeriodicTask → List PeriodicTask
put_task t [] = t ∷ []
put_task t (u ∷ tasks) =
    let rest = put_task t tasks in if str_eq u.name t.name then t ∷ tasks else u ∷ rest

-- `register_periodic`; `none` is the `ValueError`
unfoldable pub register_periodic :
    String → (interval_seconds : ℕ) → List PeriodicTask → Option (List PeriodicTask)
unfolding put_task
register_periodic name interval_seconds tasks =
    if interval_seconds == 0
    then none
    else some (put_task (record { name = name; interval = interval_seconds }) tasks)

-- `_periodic_last`
unfoldable pub last_run : String → List (String × ℕ) → Option ℕ
last_run name [] = none
last_run name (p ∷ last) =
    let rest = last_run name last in if str_eq p.0 name then some p.1 else rest

abbrev pub is_due : ℕ → PeriodicTask → Option ℕ → Bool
is_due now t none = true
is_due now t (some last) = not (ltb (now - last) t.interval)

-- `run_periodic`: the last runs afterwards, the newest first, and the names of the tasks that ran
unfoldable pub run_periodic :
    ℕ → List PeriodicTask → List (String × ℕ) → List (String × ℕ) × List String
run_periodic now [] last = (last, [])
run_periodic now (t ∷ tasks) last =
    let (later, ran) = run_periodic now tasks ((t.name, now) ∷ last) in
    let rest = run_periodic now tasks last in
    if is_due now t (last_run t.name last) then (later, t.name ∷ ran) else rest

-- `MAX_CONCURRENT_RUNS`
abbrev pub max_concurrent_runs : ℕ
max_concurrent_runs = 2

abbrev pub JobKey : Type 0
JobKey = String × String

abbrev pub is_key : JobKey → JobKey → Bool
is_key k j = str_eq j.0 k.0 && str_eq j.1 k.1

-- one turn of the loop over a kind's queued runs
abbrev pub is_held_back : JobKey → List JobKey → Bool
is_held_back k inflight = any (is_key k) inflight || leb max_concurrent_runs (length inflight)

-- `dispatch`, over the kinds and the ids that `queued_run_ids` gives: what is in flight afterwards,
-- and what was handed to the pool
unfoldable pub dispatch_keys : List JobKey → List JobKey → List JobKey × List JobKey
dispatch_keys [] inflight = (inflight, [])
dispatch_keys (k ∷ keys) inflight =
    let rest = dispatch_keys keys inflight in
    let (later, submitted) = dispatch_keys keys (inflight ++ k ∷ []) in
    if is_held_back k inflight then rest else (later, k ∷ submitted)

-- `self._pool` may be missing
unfoldable pub dispatch : (has_pool : Bool) → List JobKey → List JobKey → List JobKey × List JobKey
dispatch has_pool keys inflight = if has_pool then dispatch_keys keys inflight else (inflight, [])

-- No key is in flight twice.
abbrev pub AllOnce : List JobKey → Type 0
AllOnce [] = Unit
AllOnce (k ∷ keys) = (any (is_key k) keys ≡ false) × AllOnce keys

is_key_comm : (k j : JobKey) → is_key k j ≡ is_key j k
is_key_comm k j =
    ap (λ c. c && str_eq j.1 k.1) (str_eq_comm j.0 k.0)
    ∙ ap (λ c. str_eq k.0 j.0 && c) (str_eq_comm j.1 k.1)

append-AllOnce :
    (k : JobKey) (keys : List JobKey)
    → any (is_key k) keys ≡ false
    → AllOnce keys
    → AllOnce (keys ++ k ∷ [])
append-AllOnce k [] new once = (refl, tt)
append-AllOnce k (j ∷ keys) new (alone, once) = (
  any-append (is_key j) keys (k ∷ []) ∙ ground (arith, is_key_comm k j),
  append-AllOnce k keys (ground arith) once,
)

keys-bounded :
    (keys inflight : List JobKey)
    → length inflight ≤ max_concurrent_runs
    → AllOnce inflight
    → let (later, submitted) = dispatch_keys keys inflight in
      (length later ≤ max_concurrent_runs) × AllOnce later × (later ≡ inflight ++ submitted)
unfolding dispatch_keys
keys-bounded [] inflight few once = (few, once, sym (append-nil inflight))
keys-bounded (k ∷ keys) inflight few once = elim (Bool-cases (is_held_back k inflight)) [
  | inl e ↦ rw e (keys-bounded keys inflight few once)
  | inr e ↦
      let new : any (is_key k) inflight ≡ false = ground arith in
      let room : length (inflight ++ k ∷ []) ≤ max_concurrent_runs =
        ground (arith, length-append inflight (k ∷ [])) in
      let (a, b, c) =
        keys-bounded keys (inflight ++ k ∷ []) room (append-AllOnce k inflight new once) in
      rw e (a, b, c ∙ append_assoc inflight (k ∷ []) (dispatch_keys keys (inflight ++ k ∷ [])).1)
]

-- If at most `MAX_CONCURRENT_RUNS` runs are in flight, each once, then so it is after dispatching, of
-- whatever queued runs; what was in flight still is, followed by what was handed to the pool.
pub dispatch-bounded :
    (has_pool : Bool) (keys inflight : List JobKey)
    → length inflight ≤ max_concurrent_runs
    → AllOnce inflight
    → let (later, submitted) = dispatch has_pool keys inflight in
      (length later ≤ max_concurrent_runs) × AllOnce later × (later ≡ inflight ++ submitted)
unfolding dispatch
dispatch-bounded true keys inflight few once = keys-bounded keys inflight few once
dispatch-bounded false keys inflight few once = (few, once, sym (append-nil inflight))
