-- ===== src/RateLimit/Forgetting.antt =====
-- What `reset` and `prune` of app/services/rate_limit.py forget.
use native.Mathlib.Nat.{mod-lt}
use ai_agent_first_trust_por.Prelude.{
  ℕ, ◌-◌, ◌*◌, ◌≤◌, ◌<◌, String, true, false, not, ◌&&◌, ◌≡◌, arith, str_eq, eq_iff, Bool-cases,
  inl, inr, ◌/◌, ◌%◌, find-select, find-select-none, if◌then◌else◌,
}
use ai_agent_first_trust_por.RateLimit.{
  Window, Table, second, counts, of_client, is_fresh, window_start, reset, prune,
}
use ai_agent_first_trust_por.RateLimit.Counts.{attempts_of}

own_dropped :
    (b c b' c' : String) (w : ℕ) (r : Window)
    → (str_eq b b' && str_eq c c') ≡ true
    → counts b' c' w r ≡ true
    → not (of_client b c r) ≡ false
own_dropped b c b' c' w r s h = ground (
  arith,
  eq_iff b b',
  eq_iff c c',
  eq_iff r.bucket b,
  eq_iff r.bucket b',
  eq_iff r.client_key c,
  eq_iff r.client_key c',
)

other_kept :
    (b c b' c' : String) (w : ℕ) (r : Window)
    → (str_eq b b' && str_eq c c') ≡ false
    → counts b' c' w r ≡ true
    → not (of_client b c r) ≡ true
other_kept b c b' c' w r s h = ground (
  arith,
  eq_iff b b',
  eq_iff c c',
  eq_iff r.bucket b,
  eq_iff r.bucket b',
  eq_iff r.client_key c,
  eq_iff r.client_key c',
)

current_start :
    (seconds now max_age : ℕ)
    → 0 < seconds
    → seconds * second ≤ max_age
    → now - max_age ≤ window_start seconds now * second
unfolding window_start
current_start seconds now max_age pos Fits =
    let epoch : ℕ = now / second in
    let below : epoch % seconds < seconds = mod-lt epoch pos in omega arith

current_fresh :
    (seconds now max_age : ℕ) (b c : String) (r : Window)
    → 0 < seconds
    → seconds * second ≤ max_age
    → counts b c (window_start seconds now) r ≡ true
    → is_fresh (now - max_age) r ≡ true
current_fresh seconds now max_age b c r pos Fits h =
    ground (arith, current_start seconds now max_age)

-- A reset gives a client its whole budget back in one bucket, in every window, and leaves every
-- other bucket's and client's counter as it was.
pub attempts-reset :
    (b c b' c' : String) (w : ℕ) (t : Table)
    → attempts_of b' c' w (reset b c t)
      ≡ (if str_eq b b' && str_eq c c' then 0 else attempts_of b' c' w t)
unfolding reset
attempts-reset b c b' c' w t = elim (Bool-cases (str_eq b b' && str_eq c c')) [
  | inl same ↦ rw same (
      ground (
        arith,
        find-select-none (λ r. not (of_client b c r)) (counts b' c' w) t
            (λ r h. own_dropped b c b' c' w r same h),
      ))
  | inr apart ↦ rw apart (
      ground (
        arith,
        find-select (λ r. not (of_client b c r)) (counts b' c' w) t
            (λ r h. other_kept b c b' c' w r apart h),
      ))
]

-- Pruning what is older than `max_age`, where a window is no longer than that, leaves each counter
-- of the current window as it was.
pub attempts-prune_current :
    (seconds now max_age : ℕ) (b c : String) (t : Table)
    → 0 < seconds
    → seconds * second ≤ max_age
    → attempts_of b c (window_start seconds now) (prune now max_age t).1
      ≡ attempts_of b c (window_start seconds now) t
unfolding prune
attempts-prune_current seconds now max_age b c t pos Fits = ground (
  arith,
  find-select (is_fresh (now - max_age)) (counts b c (window_start seconds now)) t
      (λ r h. current_fresh seconds now max_age b c r pos Fits h),
)
