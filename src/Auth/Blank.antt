-- ===== src/Auth/Blank.antt =====
-- Keys made of spaces in the headers of app/auth.py.
use ai_agent_first_trust_por.Prelude.{ℕ, true, ◌≡◌, refl, List, [], ◌∷◌, arith, all, some}
use ai_agent_first_trust_por.Auth.Header.{Request, is_space, lstrip, strip, api_key_header}

lstrip-blank : (s : List ℕ) → all is_space s ≡ true → lstrip s ≡ []
unfolding lstrip
lstrip-blank [] h = refl
lstrip-blank (c ∷ s) h = ground (arith, lstrip-blank s)

strip-blank : (s : List ℕ) → all is_space s ≡ true → strip s ≡ []
unfolding strip
strip-blank s h = rw (lstrip-blank s h)

pub api_key_header-blank :
    (r : Request) (s : List ℕ)
    → r.x_api_key ≡ some s
    → all is_space s ≡ true
    → api_key_header r ≡ some []
unfolding api_key_header
api_key_header-blank r s e h = rw e (rw (strip-blank s h))
