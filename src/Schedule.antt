-- ===== src/Schedule.antt =====
-- The cron expressions of app/services/scheduler.py, over ASCII code points. A `ValueError` is
-- `none`.
use ai_agent_first_trust_por.Prelude.{
  ℕ, zero, suc, ◌+◌, ◌-◌, ◌*◌, ◌%◌, Bool, true, false, not, ◌&&◌, ◌||◌, Option, none, some, List,
  [], ◌∷◌, ◌++◌, map, ltb, leb, ◌==◌, take, length, any, if◌then◌else◌,
}
use ai_agent_first_trust_por.Auth.Header.{codes, is_space, lower, same_text, starts_with, strip}
pub mod Ranges
pub mod Days
mod Examples

-- `int`: spaces around, a sign, digits with single underscores between them; the sign, and the value
digits_value : ℕ → Bool → List ℕ → Option ℕ
digits_value acc after_digit [] = if after_digit then some acc else none
digits_value acc after_digit (c ∷ s) =
    let more = digits_value (acc * 10 + (c - 48)) true s in
    let rest = digits_value acc false s in
    if leb 48 c && leb c 57 then more else if c == 95 && after_digit then rest else none

signed : List ℕ → Option (Bool × ℕ)
signed [] = none
signed (c ∷ s) =
    if c == 45
    then elim (digits_value 0 false s) [ none ↦ none | some n ↦ some (true, n) ]
    else elim (digits_value 0 false (if c == 43 then s else c ∷ s)) [
      | none ↦ none
      | some n ↦ some (false, n)
    ]

unfoldable pub int_of : List ℕ → Option (Bool × ℕ)
unfolding signed digits_value
int_of s = signed (strip s)

-- `_DOW_NAMES`
abbrev pub dow_names : List (List ℕ)
dow_names =
    codes "sun"
    ∷ codes "mon"
    ∷ codes "tue"
    ∷ codes "wed"
    ∷ codes "thu"
    ∷ codes "fri"
    ∷ codes "sat"
    ∷ []

index_of : ℕ → List ℕ → List (List ℕ) → Option ℕ
index_of i s [] = none
index_of i s (n ∷ names) =
    let rest = index_of (suc i) s names in if same_text s n then some i else rest

-- `_dow_value`
unfoldable pub dow_value : List ℕ → Option ℕ
unfolding index_of
dow_value token =
    let t = map lower (strip token) in
    elim (index_of 0 (take 3 t) dow_names) [
      | some i ↦ some i
      | none ↦ elim (int_of t) [
        | none ↦ none
        | some v ↦ if (v.0 && not (v.1 == 0)) || ltb 7 v.1 then none else some (v.1 % 7)
      ]
    ]

-- `s.split(c, 1)`, where `c in s`
abbrev pub split_first : ℕ → List ℕ → Option (List ℕ × List ℕ)
split_first c [] = none
split_first c (d ∷ s) =
    let rest = split_first c s in
    if d == c then some ([], s) else elim rest [ none ↦ none | some p ↦ some (d ∷ p.0, p.1) ]

-- `s.split(c)`: the first piece, and the others
split_pieces : ℕ → List ℕ → List ℕ × List (List ℕ)
split_pieces c [] = ([], [])
split_pieces c (d ∷ s) =
    let (piece, pieces) = split_pieces c s in
    if d == c then ([], piece ∷ pieces) else (d ∷ piece, pieces)

unfoldable pub split_all : ℕ → List ℕ → List (List ℕ)
unfolding split_pieces
split_all c s = let (piece, pieces) = split_pieces c s in piece ∷ pieces

pub record DayRange : Type 0 where
  pub start : ℕ
  pub end : ℕ
  pub step : ℕ

-- 7 is itself at an end of a range
seven_or_value : List ℕ → Option ℕ
seven_or_value s = if same_text (strip s) (codes "7") then some 7 else dow_value s

ordered : ℕ → ℕ → Option ℕ → Option DayRange
ordered a b step =
    if ltb b a
    then none
    else some (record { start = a; end = b; step = elim step [ none ↦ 1 | some n ↦ n ] })

ends : Option ℕ → Option ℕ → Option ℕ → Option DayRange
ends (some a) (some b) step = ordered a b step
ends _ _ step = none

single : Option ℕ → Option ℕ → Option DayRange
single none step = none
single (some a) none = ordered a a none
single (some a) (some n) = ordered a 7 (some n)

bounds : List ℕ → Option ℕ → Option DayRange
bounds part step =
    if same_text part (codes "*") || same_text part []
    then ordered 0 6 step
    else elim (split_first 45 part) [
      | some p ↦ ends (seven_or_value p.0) (seven_or_value p.1) step
      | none ↦ single (seven_or_value part) step
    ]

-- what a part of the field covers
unfoldable pub range_of_part : List ℕ → Option DayRange
unfolding bounds single ends ordered seven_or_value
range_of_part part = elim (split_first 47 part) [
  | none ↦ bounds part none
  | some p ↦ elim (int_of p.1) [
    | none ↦ none
    | some v ↦ if v.0 || v.1 == 0 then none else bounds p.0 (some v.1)
  ]
]

-- `if value % 7 not in days: days.append(value % 7)`
abbrev pub add_day : ℕ → List ℕ → List ℕ
add_day d days = if any (λ e. e == d) days then days else days ++ d ∷ []

-- `for value in range(start, end + 1, step)`, on fuel
unfoldable pub add_range : (fuel start end step : ℕ) → List ℕ → List ℕ
add_range zero a b step days = days
add_range (suc fuel) a b step days =
    if leb a b then add_range fuel (a + step) b step (add_day (a % 7) days) else days

-- the loop over the parts; a range has at most `end + 1` values
unfoldable pub add_parts : List (List ℕ) → List ℕ → Option (List ℕ)
add_parts [] days = some days
add_parts (part ∷ parts) days = elim (range_of_part part) [
  | none ↦ none
  | some r ↦ add_parts parts (add_range (suc r.end) r.start r.end r.step days)
]

-- `sorted`
unfoldable pub insert_day : ℕ → List ℕ → List ℕ
insert_day d [] = d ∷ []
insert_day d (e ∷ days) = let rest = insert_day d days in if leb d e then d ∷ e ∷ days else e ∷ rest

unfoldable pub sort_days : List ℕ → List ℕ
sort_days [] = []
sort_days (d ∷ days) = insert_day d (sort_days days)

-- the days that the printed names stand for: Sunday is 0
pub data DayOfWeek : Type 0 where
  every_day : DayOfWeek
  on_days : List ℕ → DayOfWeek

sorted_days : Option (List ℕ) → Option DayOfWeek
sorted_days none = none
sorted_days (some days) = some (on_days (sort_days days))

unfoldable pub crontab_day_of_week : List ℕ → Option DayOfWeek
unfolding sorted_days
crontab_day_of_week field =
    let f = strip field in
    if same_text f (codes "*") || same_text f (codes "?")
    then some every_day
    else sorted_days (add_parts (split_all 44 f) [])

-- `_day_restricted`
unfoldable pub day_restricted : List ℕ → Bool
day_restricted field =
    let f = strip field in not (starts_with f (codes "*") || starts_with f (codes "?"))

-- the arguments of a `CronTrigger`; one that is left out is `none`
pub record CronTrigger : Type 0 where
  pub minute : List ℕ
  pub hour : List ℕ
  pub day : Option (List ℕ)
  pub month : List ℕ
  pub day_of_week : Option DayOfWeek

pub data Trigger : Type 0 where
  cron : CronTrigger → Trigger
  either : CronTrigger → CronTrigger → Trigger

-- `expression.split()`: what is collected of a word, then the words
words : List ℕ → List ℕ × List (List ℕ)
words [] = ([], [])
words (c ∷ s) =
    let (word, others) = words s in
    if is_space c
    then ([], if same_text word [] then others else word ∷ others)
    else (c ∷ word, others)

split_words : List ℕ → List (List ℕ)
split_words s = let (word, others) = words s in if same_text word [] then others else word ∷ others

-- APScheduler's `CronTrigger` raises a `ValueError` for arguments that it does not accept
checked : (accepts : CronTrigger → Bool) → CronTrigger → Option CronTrigger
checked accepts t = if accepts t then some t else none

either_day : Option CronTrigger → Option CronTrigger → Option Trigger
either_day (some a) (some b) = some (either a b)
either_day _ _ = none

one_trigger : Option CronTrigger → Option Trigger
one_trigger none = none
one_trigger (some t) = some (cron t)

cron_of : (accepts : CronTrigger → Bool) → List (List ℕ) → Option Trigger
cron_of accepts (minute ∷ hour ∷ day ∷ month ∷ dow ∷ []) = elim (crontab_day_of_week dow) [
  | none ↦ none
  | some d ↦
      if day_restricted day && day_restricted dow
      then either_day
          (checked accepts (record {
            minute = minute;
            hour = hour;
            day = some day;
            month = month;
            day_of_week = none;
          }))
          (checked accepts (record {
            minute = minute;
            hour = hour;
            day = none;
            month = month;
            day_of_week = some d;
          }))
      else one_trigger (
          checked accepts (record {
            minute = minute;
            hour = hour;
            day = some day;
            month = month;
            day_of_week = some d;
          }))
]
cron_of accepts _ = none

unfoldable pub parse_cron : (accepts : CronTrigger → Bool) → Option (List ℕ) → Option Trigger
unfolding cron_of one_trigger either_day checked split_words words
parse_cron accepts none = none
parse_cron accepts (some expression) = cron_of accepts (split_words expression)
