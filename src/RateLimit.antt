-- ===== src/RateLimit.antt =====
-- Authentication rate limiting: app/services/rate_limit.py and `consume_client_session` of
-- app/auth.py. The table is a list of counters; each statement on it is atomic. Times are
-- microseconds, and window starts whole seconds. `limit` and `seconds` are the configuration
-- AUTH_RATE_LIMIT_ATTEMPTS and AUTH_RATE_LIMIT_WINDOW_SECONDS.
mod Counts
pub mod Budget
pub mod Forgetting
mod Examples
use ai_agent_first_trust_por.Prelude.{
  ℕ, ◌+◌, ◌-◌, ◌*◌, ◌/◌, ◌%◌, String, Bool, true, false, not, ◌&&◌, Option, none, some, List, [],
  ◌∷◌, ◌++◌, ltb, leb, ◌==◌, is_some, str_eq, find, select, update_first, length, if◌then◌else◌,
}
use ai_agent_first_trust_por.Team.{TeamMember}

pub record Window : Type 0 where
  pub bucket : String
  pub client_key : String
  pub window_start : ℕ
  pub attempts : ℕ

abbrev pub Table : Type 0
Table = List Window

-- `(request.remote_addr or "unknown")[:128]`
client_key : Option String → String
client_key none = "unknown"
client_key (some a) = if str_eq a "" then "unknown" else Prim.Native.String.slice a 0 128

abbrev pub second : ℕ
second = 1000000

-- `_window_start`, in seconds
unfoldable pub window_start : ℕ → ℕ → ℕ
window_start seconds now = let epoch = now / second in epoch - epoch % seconds

-- the unique index on bucket, client and window
abbrev pub counts : String → String → ℕ → Window → Bool
counts b c w r = str_eq r.bucket b && (str_eq r.client_key c && r.window_start == w)

abbrev pub counted_once_more : Window → Window
counted_once_more r = record r { attempts = r.attempts + 1 }

abbrev pub new_window : String → String → ℕ → Window
new_window b c w = record { bucket = b; client_key = c; window_start = w; attempts = 1 }

upsert_row : String → String → ℕ → Table → Option Window → ℕ × Table
upsert_row b c w t none = (1, t ++ new_window b c w ∷ [])
upsert_row b c w t (some r) = (r.attempts + 1, update_first (counts b c w) counted_once_more t)

-- INSERT ... ON CONFLICT DO UPDATE ... RETURNING attempts
unfoldable pub upsert : String → String → ℕ → Table → ℕ × Table
unfolding upsert_row
upsert b c w t = upsert_row b c w t (find (counts b c w) t)

unfoldable pub consume : (limit seconds now : ℕ) (bucket client : String) → Table → Bool × Table
consume limit seconds now bucket client t =
    let (attempts, t') = upsert bucket client (window_start seconds now) t in
    (leb attempts limit, t')

limited_row : ℕ → Option Window → Bool
limited_row limit none = false
limited_row limit (some r) = leb limit r.attempts

unfoldable pub is_limited : (limit seconds now : ℕ) (bucket client : String) → Table → Bool
unfolding limited_row
is_limited limit seconds now bucket client t =
    limited_row limit (find (counts bucket client (window_start seconds now)) t)

abbrev pub of_client : String → String → Window → Bool
of_client b c r = str_eq r.bucket b && str_eq r.client_key c

unfoldable pub reset : (bucket client : String) → Table → Table
reset bucket client t = select (λ r. not (of_client bucket client r)) t

abbrev pub is_fresh : ℕ → Window → Bool
is_fresh cutoff r = leb cutoff (r.window_start * second)

-- windows older than `max_age`, in microseconds; the number removed comes back
unfoldable pub prune : (now max_age : ℕ) → Table → ℕ × Table
prune now max_age t =
    (length t - length (select (is_fresh (now - max_age)) t), select (is_fresh (now - max_age)) t)

unfoldable pub consume_client_session : (limit seconds now : ℕ) → TeamMember → Table → Bool × Table
unfolding consume
consume_client_session limit seconds now m t =
    consume limit seconds now "client_session" (Prim.Native.String.◌++◌ "member:" m.id) t
