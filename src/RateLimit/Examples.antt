-- ===== src/RateLimit/Examples.antt =====
-- Attempts on small tables, to which the results on app/services/rate_limit.py are applied.
use Prim.Native.Nat.{min}
use ai_agent_first_trust_por.Prelude.{ℕ, ◌-◌, ◌*◌, List, [], ◌∷◌, ◌≡◌}
use ai_agent_first_trust_por.RateLimit.{Table}
use ai_agent_first_trust_por.RateLimit.Counts.{attempts_of}
use ai_agent_first_trust_por.RateLimit.Budget.{Attempt, requested, allowed, allowed-eq-min}

abbrev login_at_second : ℕ → Attempt
login_at_second s = record { bucket = "login"; client = "10.0.0.1"; now = s * 1000000 }

abbrev burst : List Attempt
burst =
    login_at_second 901
    ∷ login_at_second 902
    ∷ record (login_at_second 903) { client = "10.0.0.2" }
    ∷ login_at_second 904
    ∷ login_at_second 1900
    ∷ []

-- two of the three attempts of the window pass
allowed-eq-min_example :
    allowed 2 900 "login" "10.0.0.1" 900 burst []
    ≡ min (requested 2 900 "login" "10.0.0.1" 900 burst) (2 - attempts_of "login" "10.0.0.1" 900 [])
allowed-eq-min_example = allowed-eq-min 2 900 "login" "10.0.0.1" 900 burst []

abbrev counters : Table
counters =
    record { bucket = "login"; client_key = "10.0.0.1"; window_start = 900; attempts = 2 }
    ∷ record { bucket = "setup"; client_key = "10.0.0.1"; window_start = 900; attempts = 1 }
    ∷ []
