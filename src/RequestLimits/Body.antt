-- ===== src/RequestLimits/Body.antt =====
-- The body limit in force on a request: app/request_limits.py.
use Prim.Native.Nat.{min}
use ai_agent_first_trust_por.Prelude.{
  ℕ, ◌≤◌, String, Bool, false, not, ◌&&◌, Option, none, some, ◌≡◌, refl, arith, ltb, Bool-cases,
  inl, inr,
}
use ai_agent_first_trust_por.RequestLimits.{
  default_body_limit, route_body_limit, without_body, exceeds, capped, raise_limit, apply_raised,
  apply_route_body_limit, effective_limit,
}

-- The route's hook, then the limit.
abbrev pub limit_of : Option ℕ → Option ℕ → Bool → String → String → Option ℕ
limit_of request_body_limit max_content_length authenticated endpoint method =
    effective_limit request_body_limit max_content_length (
      apply_route_body_limit request_body_limit max_content_length authenticated endpoint method
        none)

raised-bounded :
    (raised : Option ℕ) (request_body_limit : Option ℕ) (ceiling : ℕ) (authenticated : Bool)
    (method : String)
    → (l : ℕ) × (effective_limit request_body_limit
          (some ceiling)
          (apply_raised raised request_body_limit (some ceiling) authenticated method none)
        ≡ some l)
      × (l ≤ ceiling)
      × (authenticated ≡ false → (d : ℕ) → request_body_limit ≡ some d → l ≤ d)
unfolding effective_limit apply_raised default_body_limit raise_limit exceeds capped
raised-bounded none none ceiling authenticated method = (ceiling, refl, omega arith, λ a d h. cc h)
raised-bounded none (some b) ceiling authenticated method =
    (min b ceiling, refl, omega arith, λ a d h. ground arith)
raised-bounded (some r) none ceiling authenticated method =
    elim (Bool-cases (without_body method)) [
      | inl e ↦ rw e (ceiling, refl, omega arith, λ a d h. cc h)
      | inr e ↦
          let low : ltb ceiling (min r ceiling) ≡ false = ground arith in
          rw e (rw low (min r ceiling, refl, omega arith, λ a d h. cc h))
    ]
raised-bounded (some r) (some b) ceiling authenticated method =
    elim (Bool-cases (without_body method)) [
      | inl e ↦ rw e (min b ceiling, refl, omega arith, λ a d h. ground arith)
      | inr e ↦ elim (Bool-cases (ltb (min b ceiling) (min r ceiling) && not authenticated)) [
        | inl f ↦ rw e (rw f (min b ceiling, refl, omega arith, λ a d h. ground arith))
        | inr f ↦ rw e (rw f (min r ceiling, refl, omega arith, λ a d h. ground arith))
      ]
    ]

-- With a `MAX_CONTENT_LENGTH`, every request has a limit, and it is at most that length; the limit of
-- a request that does not authenticate is at most `REQUEST_BODY_LIMIT` too, where that is set,
-- whatever the route.
pub limit-bounded :
    (request_body_limit : Option ℕ) (ceiling : ℕ) (authenticated : Bool) (endpoint method : String)
    → (l : ℕ) × (limit_of request_body_limit (some ceiling) authenticated endpoint method ≡ some l)
      × (l ≤ ceiling)
      × (authenticated ≡ false → (d : ℕ) → request_body_limit ≡ some d → l ≤ d)
unfolding apply_route_body_limit
limit-bounded request_body_limit ceiling authenticated endpoint method =
    raised-bounded (route_body_limit endpoint) request_body_limit ceiling authenticated method
