-- ===== src/RateLimit/Budget.antt =====
-- The budget of app/services/rate_limit.py over any interleaving of attempts.
use Prim.Native.Nat.{min}
use ai_agent_first_trust_por.Prelude.{
  ℕ, suc, ◌+◌, ◌-◌, ◌<◌, String, Bool, true, not, List, [], ◌∷◌, ◌≡◌, arith, str_eq, ◌==◌, ◌&&◌,
  leb, and-left, and-right, eq_iff, ==_iff, if◌then◌else◌,
}
use ai_agent_first_trust_por.RateLimit.{Table, window_start, consume, is_limited}
use ai_agent_first_trust_por.RateLimit.Counts.{
  attempts_of, same_counter, upsert-returns, attempts-upsert,
}

-- One attempt of some client, at some time, in some process: each is one atomic statement, so any
-- interleaving of the processes is a list of them.
pub record Attempt : Type 0 where
  pub bucket : String
  pub client : String
  pub now : ℕ

module _ (limit seconds : ℕ) where
  -- whether an attempt counts in a given counter
  abbrev pub is_of : String → String → ℕ → Attempt → Bool
  is_of b c w a = same_counter a.bucket a.client (window_start seconds a.now) b c w

  abbrev pub after : Attempt → Table → Table
  after a t = (consume limit seconds a.now a.bucket a.client t).1

  -- the attempts of a counter, and those that were let through
  pub requested : String → String → ℕ → List Attempt → ℕ
  requested b c w [] = 0
  requested b c w (a ∷ es) =
      let rest = requested b c w es in if is_of b c w a then suc rest else rest

  pub allowed : String → String → ℕ → List Attempt → Table → ℕ
  allowed b c w [] t = 0
  allowed b c w (a ∷ es) t =
      let rest = allowed b c w es (after a t) in
      if is_of b c w a
      then if (consume limit seconds a.now a.bucket a.client t).0 then suc rest else rest
      else rest

  consume-attempts :
      (b c : String) (w : ℕ) (a : Attempt) (t : Table)
      → attempts_of b c w (after a t)
        ≡ (if is_of b c w a then suc (attempts_of b c w t) else attempts_of b c w t)
  unfolding consume
  consume-attempts b c w a t =
      ground (arith, attempts-upsert a.bucket a.client (window_start seconds a.now) b c w t)

  consume-answer :
      (b c : String) (w : ℕ) (a : Attempt) (t : Table)
      → is_of b c w a ≡ true
      → (consume limit seconds a.now a.bucket a.client t).0 ≡ leb (attempts_of b c w t + 1) limit
  unfolding consume
  consume-answer b c w a t same =
      let w' : ℕ = window_start seconds a.now in
      let rest : (str_eq a.client c && w' == w) ≡ true = and-right (str_eq a.bucket b) _ same in
      rw
        (
          ← (eq_iff a.bucket b).0 (and-left _ _ same),
          ← (eq_iff a.client c).0 (and-left _ _ rest),
          ← (==_iff w' w).0 (and-right (str_eq a.client c) _ rest),
        )
        (ground (arith, upsert-returns a.bucket a.client w' t))

  -- Of the attempts that any interleaving makes on one bucket, client and window, exactly as many
  -- are let through as the budget still holds, and all of them while it lasts, whatever the other
  -- attempts are.
  pub allowed-eq-min :
      (b c : String) (w : ℕ) (es : List Attempt) (t : Table)
      → allowed b c w es t ≡ min (requested b c w es) (limit - attempts_of b c w t)
  unfolding allowed requested
  allowed-eq-min b c w [] t = omega arith
  allowed-eq-min b c w (a ∷ es) t = ground (
    arith,
    consume-answer b c w a t,
    consume-attempts b c w a t,
    allowed-eq-min b c w es (after a t),
  )

  -- With a positive limit, a client is limited exactly when its next attempt in the window would be
  -- refused.
  pub is_limited-eq-not-consume :
      (now : ℕ) (b c : String) (t : Table)
      → 0 < limit
      → is_limited limit seconds now b c t ≡ not (consume limit seconds now b c t).0
  unfolding is_limited consume
  is_limited-eq-not-consume now b c t h =
      ground (arith, upsert-returns b c (window_start seconds now) t)
