-- ===== src/Auth/Session.antt =====
-- Browser sessions of app/auth.py.
use ai_agent_first_trust_por.Prelude.{
  ℕ, ◌+◌, ◌-◌, ◌*◌, ◌/◌, String, Bool, true, false, not, ◌&&◌, Option, none, some, ltb, ◌==◌,
  str_eq, find, update_first, if◌then◌else◌,
}
use ai_agent_first_trust_por.Team.{
  TeamMember, Table, ApiKey, has_id, has_usable_key, key_fingerprint, find_by_api_key,
}
use ai_agent_first_trust_por.Auth.Header.{Request, api_key_header}

-- What a cookie's number may turn out to be; the portal writes whole seconds and epochs.
pub data Value : Type 0 where
  num : ℕ → Value
  flag : Bool → Value
  text : String → Value

pub record Session : Type 0 where
  pub member_id : Option String
  pub key_fp : Option String
  pub epoch : Option Value
  pub login_at : Option Value
  pub api_key : Option String
  pub permanent : Bool

-- `session.clear()`
abbrev pub cleared : Session
cleared = record {
  member_id = none;
  key_fp = none;
  epoch = none;
  login_at = none;
  api_key = none;
  permanent = false;
}

-- microseconds in a second, and `CLOCK_SKEW_SECONDS`
abbrev pub second : ℕ
second = 1000000

abbrev pub clock_skew : ℕ
clock_skew = 300 * second

unfoldable pub login_session : ℕ → TeamMember → Session
login_session now m = record {
  member_id = some m.id;
  key_fp = some (key_fingerprint m);
  epoch = some (num m.session_epoch);
  login_at = some (num (now / second));
  api_key = none;
  permanent = true;
}

-- `LEGACY_SESSION_KEYS`
abbrev pub drop_legacy_session_keys : Session → Session
drop_legacy_session_keys s = record s { api_key = none }

login_expired : (now lifetime : ℕ) → Session → Option Value → Bool × Session
login_expired now lifetime s none = (false, record s { login_at = some (num (now / second)) })
login_expired now lifetime s (some (num at)) =
    (if ltb (now + clock_skew) (at * second) then true else ltb lifetime (now - at * second), s)
login_expired now lifetime s (some (flag _)) = (true, s)
login_expired now lifetime s (some (text _)) = (true, s)

unfoldable pub session_expired : (now lifetime : ℕ) → Session → Bool × Session
unfolding login_expired
session_expired now lifetime s = login_expired now lifetime s s.login_at

unfoldable pub value_is : ℕ → Option Value → Bool
value_is n none = n == 0
value_is n (some (num e)) = e == n
value_is n (some (flag _)) = false
value_is n (some (text _)) = false

unfoldable pub epoch_matches : TeamMember → Session → Bool
unfolding value_is
epoch_matches m s = value_is m.session_epoch s.epoch

unfoldable pub fingerprint_is : String → Option String → Bool
fingerprint_is fp none = false
fingerprint_is fp (some s) = str_eq s fp

-- the tests of `_session_member` before the session's age
unfoldable pub session_names : TeamMember → Session → Bool
unfolding fingerprint_is
session_names m s =
    m.is_active
    && (has_usable_key m && (fingerprint_is (key_fingerprint m) s.key_fp && epoch_matches m s))

member_of : (now lifetime : ℕ) → Option TeamMember → Session → Option TeamMember × Session
member_of now lifetime none s = (none, cleared)
member_of now lifetime (some m) s =
    let (expired, s') = session_expired now lifetime s in
    if session_names m s && not expired then (some m, s') else (none, cleared)

session_lookup : (now lifetime : ℕ) → Table → Option String → Session → Option TeamMember × Session
session_lookup now lifetime t none s = (none, s)
session_lookup now lifetime t (some i) s =
    if str_eq i "" then (none, s) else member_of now lifetime (find (has_id i) t) s

-- `_session_member`
unfoldable pub session_member : (now lifetime : ℕ) → Table → Session → Option TeamMember × Session
unfolding session_lookup member_of
session_member now lifetime t s =
    session_lookup now lifetime t s.member_id (drop_legacy_session_keys s)

abbrev pub next_epoch : TeamMember → TeamMember
next_epoch m = record m { session_epoch = m.session_epoch + 1 }

bump_epoch : Option TeamMember → Table → Table
bump_epoch none t = t
bump_epoch (some m) t = update_first (has_id m.id) next_epoch t

unfoldable pub logout_session : (now lifetime : ℕ) → Table → Session → Table × Session
unfolding bump_epoch
logout_session now lifetime t s = (bump_epoch (session_member now lifetime t s).0 t, cleared)

module _ (sha256 : ApiKey → String) where
  key_member : Option ApiKey → Table → Option TeamMember
  key_member none t = none
  key_member (some key) t = find_by_api_key sha256 key t

  unfoldable pub header_member : Request → Table → Option TeamMember
  unfolding key_member
  header_member r t = key_member (api_key_header r) t

  resolve :
      (now lifetime : ℕ)
      → Option ApiKey
      → Request
      → Table
      → Session
      → Option TeamMember × Bool × Session
  resolve now lifetime (some _) r t s = (header_member r t, true, s)
  resolve now lifetime none r t s = let (m, s') = session_member now lifetime t s in (m, false, s')

  -- the member, whether a header named it, and the session
  unfoldable pub current_member :
      (now lifetime : ℕ) → Request → Table → Session → Option TeamMember × Bool × Session
  unfolding resolve
  current_member now lifetime r t s = resolve now lifetime (api_key_header r) r t s
