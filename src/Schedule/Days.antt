-- ===== src/Schedule/Days.antt =====
-- The days that `crontab_day_of_week` of app/services/scheduler.py gives.
use ai_agent_first_trust_por.Prelude.{
  ℕ, zero, suc, ◌+◌, ◌%◌, ◌≤◌, ◌<◌, Bool, false, ◌||◌, some, List, [], ◌∷◌, ◌++◌, ◌≡◌, refl, sym,
  ap, ◌∙◌, arith, leb, ◌==◌, any-append, Bool-cases, inl, inr, Option-cases, subst,
}
use ai_agent_first_trust_por.Auth.Header.{codes, same_text, strip}
use ai_agent_first_trust_por.Schedule.{
  DayRange, range_of_part, add_day, add_range, add_parts, insert_day, sort_days, on_days,
  crontab_day_of_week, split_all, sorted_days,
}
use ai_agent_first_trust_por.Schedule.Ranges.{
  has_day, covers, covered, ranges_of, has-sort, has-add_range, range-IsProper, or-false,
}

or_assoc : (a b c : Bool) → ((a || b) || c) ≡ (a || (b || c))
or_assoc a b c = ground arith

has-add_parts :
    (parts : List (List ℕ)) (days result : List ℕ) (rs : List DayRange) (d : ℕ)
    → ranges_of parts ≡ some rs
    → add_parts parts days ≡ some result
    → d < 7
    → has_day d result ≡ has_day d days || covered d rs
unfolding ranges_of add_parts
has-add_parts [] days result rs d made added lt = ground (arith, or-false (has_day d days))
has-add_parts (part ∷ parts) days result rs d made added lt =
    elim (Option-cases (range_of_part part)) [
      | inl e ↦ cc (rw (ranges_of, e) at made)
      | inr (r, e) ↦ elim (Option-cases (ranges_of parts)) [
        | inl f ↦ cc (rw f at (rw (ranges_of, e) at made))
        | inr (more, f) ↦
            let same : r ∷ more ≡ rs = cc (rw f at (rw (ranges_of, e) at made)) in
            let (small, pos) = range-IsProper part r e in
            has-add_parts parts (add_range (suc r.end) r.start r.end r.step days) result more d f
              (rw (add_parts, e) at added) lt
            ∙ ap (λ c. c || covered d more)
                (has-add_range (suc r.end) r.start r.end r.step d days pos small (omega arith) lt)
            ∙ or_assoc (has_day d days) (covers r d) (covered d more)
            ∙ ap (λ x. has_day d days || covered d x) same
      ]
    ]

-- in ascending order, without repetition
abbrev pub IsSorted : ℕ → List ℕ → Type 0
IsSorted low [] = Unit
IsSorted low (d ∷ days) = (low ≤ d) × IsSorted (suc d) days

abbrev AllOnce : List ℕ → Type 0
AllOnce [] = Unit
AllOnce (d ∷ days) = (has_day d days ≡ false) × AllOnce days

insert-IsSorted :
    (low d : ℕ) (days : List ℕ)
    → low ≤ d
    → has_day d days ≡ false
    → IsSorted low days
    → IsSorted low (insert_day d days)
unfolding insert_day
insert-IsSorted low d [] le new sorted = (le, tt)
insert-IsSorted low d (e ∷ days) le new (le', sorted) = elim (Bool-cases (leb d e)) [
  | inl f ↦ rw f (le, (ground arith, sorted))
  | inr f ↦ rw f (le', insert-IsSorted (suc e) d days (ground arith) (ground arith) sorted)
]

sort-IsSorted : (days : List ℕ) → AllOnce days → IsSorted 0 (sort_days days)
unfolding sort_days
sort-IsSorted [] once = tt
sort-IsSorted (d ∷ days) (new, once) =
    insert-IsSorted 0 d (sort_days days) (omega arith) (has-sort d days ∙ new)
      (sort-IsSorted days once)

once-append :
    (d : ℕ) (days : List ℕ) → has_day d days ≡ false → AllOnce days → AllOnce (days ++ d ∷ [])
once-append d [] new once = (refl, tt)
once-append d (e ∷ days) new (alone, once) =
    (any-append (λ x. x == e) days (d ∷ []) ∙ ground arith, once-append d days (ground arith) once)

once-add_day : (d : ℕ) (days : List ℕ) → AllOnce days → AllOnce (add_day d days)
once-add_day d days once = elim (Bool-cases (has_day d days)) [
  | inl e ↦ rw e once
  | inr e ↦ rw e (once-append d days e once)
]

once-add_range :
    (fuel a b step : ℕ) (days : List ℕ) → AllOnce days → AllOnce (add_range fuel a b step days)
unfolding add_range
once-add_range zero a b step days once = once
once-add_range (suc fuel) a b step days once = elim (Bool-cases (leb a b)) [
  | inl e ↦ rw e (
      once-add_range fuel (a + step) b step (add_day (a % 7) days) (once-add_day (a % 7) days once))
  | inr e ↦ rw e once
]

once-add_parts :
    (parts : List (List ℕ)) (days result : List ℕ)
    → AllOnce days
    → add_parts parts days ≡ some result
    → AllOnce result
unfolding add_parts
once-add_parts [] days result once h = subst AllOnce (cc h) once
once-add_parts (part ∷ parts) days result once h = elim (Option-cases (range_of_part part)) [
  | inl e ↦ cc (rw (add_parts, e) at h)
  | inr (r, e) ↦
      once-add_parts parts (add_range (suc r.end) r.start r.end r.step days) result
        (once-add_range (suc r.end) r.start r.end r.step days once) (rw (add_parts, e) at h)
]

some-ranges :
    (parts : List (List ℕ)) (days result : List ℕ)
    → add_parts parts days ≡ some result
    → (rs : List DayRange) × (ranges_of parts ≡ some rs)
unfolding add_parts ranges_of
some-ranges [] days result h = ([], refl)
some-ranges (part ∷ parts) days result h = elim (Option-cases (range_of_part part)) [
  | inl e ↦ cc (rw (add_parts, e) at h)
  | inr (r, e) ↦
      let (rs, f) =
        some-ranges parts (add_range (suc r.end) r.start r.end r.step days) result
          (rw (add_parts, e) at h) in
      (r ∷ rs, rw (ranges_of, e) (rw f refl))
]

-- A field that is accepted and is not a lone `*` or `?` gives its days in ascending order, each once.
-- Each of its parts is a range of days, and a day from 0 (Sunday) to 6 is among them exactly when
-- some range starts before or on it, ends on or after it and steps onto it, where Sunday counts as
-- day 0 and as day 7.
pub days-eq-covered :
    (field days : List ℕ)
    → crontab_day_of_week field ≡ some (on_days days)
    → IsSorted 0 days
      × (rs : List DayRange) × (ranges_of (split_all 44 (strip field)) ≡ some rs)
      × ((d : ℕ) → d < 7 → has_day d days ≡ covered d rs)
unfolding crontab_day_of_week sorted_days
days-eq-covered field days h =
    elim (Bool-cases (same_text (strip field) (codes "*") || same_text (strip field) (codes "?"))) [
      | inl e ↦ cc (rw (crontab_day_of_week, e) at h)
      | inr e ↦ elim (Option-cases (add_parts (split_all 44 (strip field)) [])) [
        | inl f ↦ cc (rw f at (rw (crontab_day_of_week, e) at h))
        | inr (found, f) ↦
            let same : sort_days found ≡ days = cc (rw f at (rw (crontab_day_of_week, e) at h)) in
            let (rs, made) = some-ranges (split_all 44 (strip field)) [] found f in
            (
              subst (IsSorted 0) same
                  (sort-IsSorted found (once-add_parts (split_all 44 (strip field)) [] found tt f)),
              rs,
              made,
              λ d lt.
                  ap (has_day d) (sym same)
                  ∙ has-sort d found
                  ∙ has-add_parts (split_all 44 (strip field)) [] found rs d made f lt,
            )
      ]
    ]
