-- ===== src/Scheduler/Reaper.antt =====
-- What the reaper of app/services/scheduler.py closes.
use ai_agent_first_trust_por.Prelude.{
  ℕ, ◌-◌, ◌≤◌, String, Bool, false, ◌&&◌, some, List, [], ◌∷◌, ◌≡◌, refl, sym, ap, ◌∙◌, arith, any,
  count_by, str_eq, eq_iff, if◌then◌else◌, Bool-cases, inl, inr, select, find-holds, str_eq_sym,
}
use ai_agent_first_trust_por.Scheduler.Runs.{
  Run, has_id, find_run, update, failed, is_reapable, reaped_message, reap_run, reap_each,
  reap_once,
}
use ai_agent_first_trust_por.Scheduler.Table.{find-update}

-- `id` is the primary key.
abbrev pub UniqueIds : List Run → Type 0
UniqueIds rows = (i : String) → count_by (has_id i) rows ≤ 1

pub str_eq_comm : (s t : String) → str_eq s t ≡ str_eq t s
str_eq_comm s t = ground (arith, str_eq_sym s t, str_eq_sym t s)

module _ (is_free : String → Bool) (cutoff now : ℕ) where
  closes : Run → String → Bool
  closes s i = str_eq s.id i && is_free s.target

  reap_each-find :
      (i : String) (stale rows : List Run) (r : Run)
      → find_run i rows ≡ some r
      → find_run i (reap_each is_free cutoff now stale rows)
        ≡ some (
            if is_reapable cutoff r && any (λ s. closes s i) stale
            then failed reaped_message now r
            else r)
  unfolding reap_each reap_run closes
  reap_each-find i [] rows r h = ground arith
  reap_each-find i (s ∷ stale) rows r h =
      let id_is : r.id ≡ i = (eq_iff r.id i).0 (find-holds (has_id i) rows r h) in
      let same : str_eq s.id i ≡ str_eq r.id s.id =
        ap (str_eq s.id) (sym id_is) ∙ str_eq_comm s.id r.id in
      let found : find_run i
            (update (λ x. has_id s.id x && is_reapable cutoff x) (failed reaped_message now) rows)
          ≡ some
              (if has_id s.id r && is_reapable cutoff r then failed reaped_message now r else r) =
        find-update (λ x. has_id s.id x && is_reapable cutoff x) (failed reaped_message now) i rows
          r (λ x. refl) h in
      elim (Bool-cases (is_free s.target)) [
        | inl e ↦ rw e ground (
          arith,
          reap_each-find i stale
              (update (λ x. has_id s.id x && is_reapable cutoff x) (failed reaped_message now) rows)
              r,
          reap_each-find i stale
              (update (λ x. has_id s.id x && is_reapable cutoff x) (failed reaped_message now) rows)
              (failed reaped_message now r),
        )
        | inr e ↦ rw e ground (arith, reap_each-find i stale rows r h)
      ]

  count_zero-any :
      (i : String) (rows : List Run)
      → count_by (has_id i) rows ≡ 0
      → any (λ s. closes s i) (select (is_reapable cutoff) rows) ≡ false
  unfolding closes
  count_zero-any i [] h = refl
  count_zero-any i (x ∷ rows) h = ground (arith, count_zero-any i rows)

  tail_unique : (x : Run) (rows : List Run) → UniqueIds (x ∷ rows) → UniqueIds rows
  tail_unique x rows u i = ground (arith, u i)

  -- among rows with unique ids, the row of an id is the only one
  any-select_unique :
      (i : String) (rows : List Run) (r : Run)
      → UniqueIds rows
      → find_run i rows ≡ some r
      → any (λ s. closes s i) (select (is_reapable cutoff) rows)
        ≡ is_reapable cutoff r && is_free r.target
  unfolding closes
  any-select_unique i [] r u h = cc
  any-select_unique i (x ∷ rows) r u h = elim (Bool-cases (str_eq x.id i)) [
    | inl e ↦ ground (arith, u i, count_zero-any i rows)
    | inr e ↦ ground (arith, any-select_unique i rows r (tail_unique x rows u))
  ]

-- A reaper that meets no other session closes exactly the runs that were running, had given no sign
-- of life since the grace period began, and whose target's lock could be taken: in a table with
-- unique ids, every other row stays as it was.
pub reap_once-find :
    (is_free : String → Bool) (grace now : ℕ) (rows : List Run) (i : String) (r : Run)
    → UniqueIds rows
    → find_run i rows ≡ some r
    → find_run i (reap_once is_free grace now rows)
      ≡ some (
          if is_reapable (now - grace) r && is_free r.target
          then failed reaped_message now r
          else r)
unfolding reap_once
reap_once-find is_free grace now rows i r u h = ground (
  arith,
  reap_each-find is_free (now - grace) now i (select (is_reapable (now - grace)) rows) rows r h,
  any-select_unique is_free (now - grace) now i rows r u h,
)
