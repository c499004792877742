-- ===== src/Schedule/Examples.antt =====
-- A field of a cron expression, to which the result on app/services/scheduler.py is applied.
use ai_agent_first_trust_por.Prelude.{ℕ, ◌<◌, some, List, [], ◌∷◌, ◌≡◌, refl}
use ai_agent_first_trust_por.Auth.Header.{codes, strip, same_text, lower}
use ai_agent_first_trust_por.Schedule.{
  DayRange, on_days, crontab_day_of_week, split_all, range_of_part, dow_value, int_of, add_parts,
  add_range, sort_days, insert_day,
}
use ai_agent_first_trust_por.Schedule.Ranges.{has_day, covered, ranges_of}
use ai_agent_first_trust_por.Schedule.Days.{IsSorted, days-eq-covered}

-- Monday to Wednesday, and every second day from Friday on
abbrev field : List ℕ
field = codes "mon-3,5/2"

field-days : crontab_day_of_week field ≡ some (on_days (0 ∷ 1 ∷ 2 ∷ 3 ∷ 5 ∷ []))
unfolding crontab_day_of_week same_text strip add_parts split_all range_of_part dow_value lower
    int_of sort_days add_range insert_day
field-days = refl

days-eq-covered_example :
    IsSorted 0 (0 ∷ 1 ∷ 2 ∷ 3 ∷ 5 ∷ [])
    × (rs : List DayRange) × (ranges_of (split_all 44 (strip field)) ≡ some rs)
    × ((d : ℕ) → d < 7 → has_day d (0 ∷ 1 ∷ 2 ∷ 3 ∷ 5 ∷ []) ≡ covered d rs)
days-eq-covered_example = days-eq-covered field (0 ∷ 1 ∷ 2 ∷ 3 ∷ 5 ∷ []) field-days
