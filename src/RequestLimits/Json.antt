-- ===== src/RequestLimits/Json.antt =====
-- What `check_json_limits` of app/request_limits.py lets through.
use ai_agent_first_trust_por.Prelude.{
  ℕ, ◌+◌, ◌≤◌, false, Option, none, some, List, [], ◌∷◌, ◌≡◌, ◌↔◌, refl, arith, take,
}
use ai_agent_first_trust_por.RequestLimits.{
  Token, token_of, Counts, count, over, Mode, outside, inside, escaped, next_mode,
}

-- the characters that are not in a string, as they are counted
abbrev pub structure : Mode → List ℕ → List Token
structure mode [] = []
structure outside (c ∷ s) = token_of c ∷ structure (next_mode outside c) s
structure inside (c ∷ s) = structure (next_mode inside c) s
structure escaped (c ∷ s) = structure (next_mode escaped c) s

-- what a stretch of tokens adds up to
abbrev pub tally : List Token → Counts → Counts
tally [] k = k
tally (t ∷ ts) k = tally ts (count t k)

abbrev pub WithinValues : ℕ → Option ℕ → Type 0
WithinValues n none = Unit
WithinValues n (some limit) = n ≤ limit

-- No deeper than the depth limit, and no more values or closing brackets than the value limit.
abbrev pub Within : ℕ → Option ℕ → Counts → Type 0
Within max_depth max_values k =
    (k.opened ≤ max_depth + k.closers)
    × WithinValues k.values max_values
    × WithinValues k.closers max_values

over-within : (n : ℕ) (limit : Option ℕ) → (over n limit ≡ false) ↔ WithinValues n limit
over-within n none = (λ _. tt, λ _. refl)
over-within n (some limit) = ground arith

module _ (max_depth : ℕ) (max_values : Option ℕ) where
  abbrev Fits : Mode → Counts → List ℕ → Type 0
  Fits mode k s = (n : ℕ) → Within max_depth max_values (tally (take n (structure mode s)) k)
