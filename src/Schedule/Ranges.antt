-- ===== src/Schedule/Ranges.antt =====
-- The ranges of a day-of-week field of app/services/scheduler.py, and the days that they cover.
use native.Mathlib.Nat.{mod-eq_of_lt, mod-eq-sub-mod}
use ai_agent_first_trust_por.Prelude.{
  ℕ, zero, suc, ◌+◌, ◌-◌, ◌%◌, ◌≤◌, ◌<◌, Bool, true, false, ◌&&◌, ◌||◌, Option, none, some, List,
  [], ◌∷◌, ◌≡◌, refl, sym, ap, ◌∙◌, arith, ltb, leb, ◌==◌, any, map, take, length, any-append,
  Bool-cases, inl, inr, Option-cases,
}
use ai_agent_first_trust_por.Auth.Header.{codes, lower, same_text, strip}
use ai_agent_first_trust_por.Schedule.{
  DayRange, range_of_part, add_day, add_range, insert_day, sort_days, dow_value, seven_or_value,
  ordered, ends, single, bounds, split_first, int_of, index_of, dow_names,
}

-- `v` is `start`, `start + step`, ... up to `end`
abbrev pub reaches : ℕ → ℕ → ℕ → ℕ → Bool
reaches a b step v = leb a v && (leb v b && (v - a) % step == 0)

-- A day that a range covers: Sunday is 0 and also 7.
abbrev pub covers : DayRange → ℕ → Bool
covers r d = reaches r.start r.end r.step d || (d == 0 && reaches r.start r.end r.step 7)

abbrev pub has_day : ℕ → List ℕ → Bool
has_day d days = any (λ e. e == d) days

reaches-step :
    (a b step v : ℕ)
    → 0 < step
    → a ≤ b
    → reaches a b step v ≡ ((a == v) && leb v b) || reaches (a + step) b step v
reaches-step a b step v pos le = elim (Bool-cases (ltb v (a + step))) [
  | inl e ↦ elim (Bool-cases (leb a v)) [
    | inl f ↦ let small : (v - a) % step ≡ v - a = mod-eq_of_lt (ground arith) in ground arith
    | inr f ↦ ground arith
  ]
  | inr e ↦
      let less : (v - a) % step ≡ (v - a - step) % step = mod-eq-sub-mod (ground arith) in
      let same : v - a - step ≡ v - (a + step) = omega arith in
      let turn : (v - a) % step ≡ (v - (a + step)) % step = less ∙ ap (λ x. x % step) same in
      ground arith
]

pub or-false : (c : Bool) → c ≡ c || false
or-false c = ground arith

has-add_day : (d e : ℕ) (days : List ℕ) → has_day d (add_day e days) ≡ has_day d days || e == d
has-add_day d e days = elim (Bool-cases (has_day e days)) [
  | inl f ↦ elim (Bool-cases (e == d)) [
    | inl g ↦
        let same : e ≡ d = ground arith in
        let there : has_day d days ≡ true = ap (λ x. has_day x days) (sym same) ∙ f in
        rw f (rw there refl)
    | inr g ↦ rw f (rw g (or-false (has_day d days)))
  ]
  | inr f ↦ rw f (
      any-append (λ x. x == d) days (e ∷ [])
      ∙ ap (λ c. has_day d days || c) (sym (or-false (e == d))))
]

sunday : (a d : ℕ) → a ≤ 7 → d < 7 → (a % 7 == d) ≡ (a == d) || (d == 0 && a == 7)
sunday a d le lt = ground arith

has-insert : (d e : ℕ) (days : List ℕ) → has_day d (insert_day e days) ≡ (e == d) || has_day d days
unfolding insert_day
has-insert d e [] = refl
has-insert d e (x ∷ days) = ground (arith, has-insert d e days)

pub has-sort : (d : ℕ) (days : List ℕ) → has_day d (sort_days days) ≡ has_day d days
unfolding sort_days
has-sort d [] = refl
has-sort d (x ∷ days) = has-insert d x (sort_days days) ∙ ap (λ c. (x == d) || c) (has-sort d days)

regroup :
    (h p z q u w x y : Bool)
    → (p ≡ true → u ≡ true)
    → (q ≡ true → w ≡ true)
    → ((h || (p || (z && q))) || (x || (z && y)))
      ≡ (h || (((p && u) || x) || (z && ((q && w) || y))))
regroup h p z q u w x y f g = ground arith

not_reached : (a b step v : ℕ) → b < a → reaches a b step v ≡ false
not_reached a b step v lt = ground arith

pub has-add_range :
    (fuel a b step d : ℕ) (days : List ℕ)
    → 0 < step
    → b ≤ 7
    → b < a + fuel
    → d < 7
    → has_day d (add_range fuel a b step days)
      ≡ has_day d days || (reaches a b step d || (d == 0 && reaches a b step 7))
unfolding add_range
has-add_range zero a b step d days pos small enough lt =
    ground (arith, not_reached a b step d, not_reached a b step 7, or-false (has_day d days))
has-add_range (suc fuel) a b step d days pos small enough lt = elim (Bool-cases (leb a b)) [
  | inl e ↦ rw e (
      has-add_range fuel (a + step) b step d (add_day (a % 7) days) pos small (omega arith) lt
      ∙ rw (has-add_day d (a % 7) days) (
          rw (sunday a d (ground arith) lt) (
            rw (reaches-step a b step d pos (ground arith)) (
              rw (reaches-step a b step 7 pos (ground arith)) (
                regroup (has_day d days) (a == d) (d == 0) (a == 7) (leb d b) (leb 7 b)
                  (reaches (a + step) b step d) (reaches (a + step) b step 7) (λ h. ground arith)
                  (λ h. ground arith))))))
  | inr e ↦
      rw e
        (ground (arith, not_reached a b step d, not_reached a b step 7, or-false (has_day d days)))
]

-- the ranges of a field's parts
unfoldable pub ranges_of : List (List ℕ) → Option (List DayRange)
ranges_of [] = some []
ranges_of (part ∷ parts) =
    let rest = ranges_of parts in
    elim (range_of_part part) [
      | none ↦ none
      | some r ↦ elim rest [ none ↦ none | some rs ↦ some (r ∷ rs) ]
    ]

abbrev pub covered : ℕ → List DayRange → Bool
covered d rs = any (λ r. covers r d) rs

-- a range that ends by Sunday and makes progress
abbrev IsProper : DayRange → Type 0
IsProper r = (r.end ≤ 7) × (0 < r.step)

abbrev IsStep : Option ℕ → Type 0
IsStep none = Unit
IsStep (some n) = 0 < n

ordered-IsProper :
    (a b : ℕ) (step : Option ℕ) (r : DayRange)
    → b ≤ 7
    → IsStep step
    → ordered a b step ≡ some r
    → IsProper r
unfolding ordered
ordered-IsProper a b none r small pos h = ground arith
ordered-IsProper a b (some n) r small pos h = ground arith

index-bound :
    (i : ℕ) (s : List ℕ) (names : List (List ℕ)) (a : ℕ)
    → index_of i s names ≡ some a
    → a < i + length names
unfolding index_of
index-bound i s [] a h = cc
index-bound i s (n ∷ names) a h = ground (arith, index-bound (suc i) s names a)

mod-lt : (n : ℕ) → n % 7 < 7
mod-lt n = omega arith

dow_value-bound : (s : List ℕ) (a : ℕ) → dow_value s ≡ some a → a < 7
unfolding dow_value
dow_value-bound s a h = elim (Option-cases (index_of 0 (take 3 (map lower (strip s))) dow_names)) [
  | inr (i, e) ↦ ground (arith, index-bound 0 (take 3 (map lower (strip s))) dow_names i)
  | inl e ↦ elim (Option-cases (int_of (map lower (strip s)))) [
    | inl g ↦ cc (rw g at (rw (dow_value, e) at h))
    | inr (v, g) ↦ ground (arith, mod-lt v.1)
  ]
]

seven_or_value-bound : (s : List ℕ) (a : ℕ) → seven_or_value s ≡ some a → a ≤ 7
unfolding seven_or_value
seven_or_value-bound s a h = ground (arith, dow_value-bound s a)

ends-IsProper :
    (o p step : Option ℕ) (r : DayRange)
    → ((b : ℕ) → p ≡ some b → b ≤ 7)
    → IsStep step
    → ends o p step ≡ some r
    → IsProper r
unfolding ends
ends-IsProper none p step r small pos h = cc
ends-IsProper (some a) none step r small pos h = cc
ends-IsProper (some a) (some b) step r small pos h =
    ordered-IsProper a b step r (small b refl) pos h

single-IsProper :
    (o step : Option ℕ) (r : DayRange)
    → ((a : ℕ) → o ≡ some a → a ≤ 7)
    → IsStep step
    → single o step ≡ some r
    → IsProper r
unfolding single
single-IsProper none step r small pos h = cc
single-IsProper (some a) none r small pos h = ordered-IsProper a a none r (small a refl) pos h
single-IsProper (some a) (some n) r small pos h =
    ordered-IsProper a 7 (some n) r (omega arith) pos h

bounds-IsProper :
    (part : List ℕ) (step : Option ℕ) (r : DayRange)
    → IsStep step
    → bounds part step ≡ some r
    → IsProper r
unfolding bounds
bounds-IsProper part step r pos h =
    elim (Bool-cases (same_text part (codes "*") || same_text part [])) [
      | inl e ↦ ordered-IsProper 0 6 step r (omega arith) pos (rw e at h)
      | inr e ↦ elim (Option-cases (split_first 45 part)) [
        | inl f ↦
            single-IsProper (seven_or_value part) step r (seven_or_value-bound part) pos
              (rw f at (rw e at h))
        | inr (p, f) ↦
            ends-IsProper (seven_or_value p.0) (seven_or_value p.1) step r
              (seven_or_value-bound p.1) pos (rw f at (rw e at h))
      ]
    ]

pub range-IsProper : (part : List ℕ) (r : DayRange) → range_of_part part ≡ some r → IsProper r
unfolding range_of_part
range-IsProper part r h = elim (Option-cases (split_first 47 part)) [
  | inl f ↦ bounds-IsProper part none r tt (rw (range_of_part, f) at h)
  | inr (p, f) ↦ elim (Option-cases (int_of p.1)) [
    | inl g ↦ cc (rw g at (rw (range_of_part, f) at h))
    | inr (v, g) ↦ elim (Bool-cases (v.0 || v.1 == 0)) [
      | inl e ↦ cc (rw e at (rw g at (rw (range_of_part, f) at h)))
      | inr e ↦
          bounds-IsProper p.0 (some v.1) r (ground arith)
            (rw e at (rw g at (rw (range_of_part, f) at h)))
    ]
  ]
]
