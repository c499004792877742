-- ===== src/RateLimit/Counts.antt =====
-- What one upsert of app/services/rate_limit.py does to every counter.
use ai_agent_first_trust_por.Prelude.{
  ℕ, ◌+◌, String, Bool, true, false, ◌&&◌, none, some, ◌≡◌, refl, arith, ◌==◌, str_eq, eq_iff,
  eq_refl, find, ==_iff, find-update_first_other, find-update_first_self, find-append, find-holds,
  Option-cases, Bool-cases, and-left, and-right, inl, inr, if◌then◌else◌,
}
use ai_agent_first_trust_por.RateLimit.{
  Window, Table, counts, new_window, counted_once_more, upsert,
}

-- the attempts that the table holds for a bucket, a client and a window
abbrev pub attempts_of : String → String → ℕ → Table → ℕ
attempts_of b c w t = elim (find (counts b c w) t) [ none ↦ 0 | some r ↦ r.attempts ]

abbrev pub same_counter : (b c : String) (w : ℕ) (b' c' : String) (w' : ℕ) → Bool
same_counter b c w b' c' w' = str_eq b b' && (str_eq c c' && w == w')

pub upsert-returns :
    (b c : String) (w : ℕ) (t : Table) → (upsert b c w t).0 ≡ attempts_of b c w t + 1
unfolding upsert
upsert-returns b c w t = ground arith

counts_apart :
    (b c : String) (w : ℕ) (b' c' : String) (w' : ℕ) (r : Window)
    → same_counter b c w b' c' w' ≡ false
    → counts b c w r ≡ true
    → counts b' c' w' r ≡ false
counts_apart b c w b' c' w' r d h = ground (
  arith,
  eq_iff r.bucket b,
  eq_iff r.bucket b',
  eq_iff b b',
  eq_iff r.client_key c,
  eq_iff r.client_key c',
  eq_iff c c',
)

attempts-upsert_self :
    (b c : String) (w : ℕ) (t : Table)
    → attempts_of b c w (upsert b c w t).1 ≡ attempts_of b c w t + 1
unfolding upsert
attempts-upsert_self b c w t = elim (Option-cases (find (counts b c w) t)) [
  | inl e ↦
      rw e
        (ground (arith, e, find-append (counts b c w) t (new_window b c w), eq_refl b, eq_refl c))
  | inr (r, e) ↦ rw e (
      ground (
        arith,
        e,
        find-update_first_self (counts b c w) counted_once_more t r e
            (find-holds (counts b c w) t r e),
      ))
]

attempts-upsert_other :
    (b c : String) (w : ℕ) (b' c' : String) (w' : ℕ) (t : Table)
    → same_counter b c w b' c' w' ≡ false
    → attempts_of b' c' w' (upsert b c w t).1 ≡ attempts_of b' c' w' t
unfolding upsert
attempts-upsert_other b c w b' c' w' t d = elim (Option-cases (find (counts b c w) t)) [
  | inl e ↦
      rw e (
        ground
          (arith, find-append (counts b' c' w') t (new_window b c w), eq_iff b b', eq_iff c c'))
  | inr (r, e) ↦ rw e (
      ground (
        arith,
        find-update_first_other (counts b c w) (counts b' c' w') counted_once_more t
            (λ x. counts_apart b c w b' c' w' x d) (λ x. refl),
      ))
]

-- An upsert counts one attempt for its own counter and leaves every other as it was.
pub attempts-upsert :
    (b c : String) (w : ℕ) (b' c' : String) (w' : ℕ) (t : Table)
    → attempts_of b' c' w' (upsert b c w t).1
      ≡ (if same_counter b c w b' c' w' then attempts_of b' c' w' t + 1 else attempts_of b' c' w' t)
attempts-upsert b c w b' c' w' t = elim (Bool-cases (same_counter b c w b' c' w')) [
  | inl same ↦ rw same (
      rw
        (
          ← (eq_iff b b').0 (and-left _ _ same),
          ← (eq_iff c c').0 (and-left _ _ (and-right (str_eq b b') _ same)),
          ← (==_iff w w').0 (and-right (str_eq c c') _ (and-right (str_eq b b') _ same)),
        )
        (attempts-upsert_self b c w t))
  | inr apart ↦ rw apart (attempts-upsert_other b c w b' c' w' t apart)
]
