-- ===== src/Auth/Examples.antt =====
-- A small team's requests and sessions, to which the results on app/auth.py are applied.
use ai_agent_first_trust_por.Prelude.{
  ℕ, ◌*◌, true, false, ◌||◌, none, some, [], ◌∷◌, ◌≡◌, ◌⊎◌, refl, any, str_eq,
}
use ai_agent_first_trust_por.Team.{
  ApiKey, is_expired, has_usable_key, key_fingerprint, find_by_api_key,
}
use ai_agent_first_trust_por.Team.Examples.{toy_digest, ann, team}
use ai_agent_first_trust_por.Auth.Header.{Request, api_key_header}
use ai_agent_first_trust_por.Auth.Session.{
  Session, num, second, cleared, session_expired, session_names, epoch_matches, session_member,
  logout_session, header_member, current_member,
}
use ai_agent_first_trust_por.Auth.Gates.{client_allowed_endpoints, require_api_key}
use ai_agent_first_trust_por.Auth.Validity.{SessionOf}
use ai_agent_first_trust_por.Auth.Revoked.{logout_revokes}
use ai_agent_first_trust_por.Auth.Admitted.{require_api_key_sound}

abbrev hour : ℕ
hour = 3600 * 1000000

-- Ann's cookie of a login at second 1000
abbrev cookie : Session
cookie = record {
  member_id = some "a";
  key_fp = some "one";
  epoch = some (num 0);
  login_at = some (num 1000);
  api_key = none;
  permanent = true;
}

cookie_stands : (session_member (2000 * second) hour team cookie).0 ≡ some ann
unfolding session_member session_names session_expired epoch_matches has_usable_key key_fingerprint
cookie_stands = refl

logout_revokes_example :
    (session_member
      (2001 * second)
      hour
      (logout_session (2000 * second) hour team cookie).0
      cookie).0
    ≡ none
logout_revokes_example =
    logout_revokes (2000 * second) (2001 * second) hour hour team cookie cookie ann cookie_stands
      refl (unfold epoch_matches in refl)

-- a GET of the controls list with Ann's key, and one with a blank key
abbrev with_key : Request
with_key = record {
  method = "GET";
  endpoint = "api.list_controls";
  path = [];
  accept = [];
  x_api_key = some (32 ∷ 1 ∷ []);
  authorization = none;
}

abbrev with_blank : Request
with_blank = record with_key { x_api_key = some (32 ∷ 9 ∷ []) }

key_is_read : api_key_header with_key ≡ some (1 ∷ [])
unfolding api_key_header
key_is_read = refl

require_api_key_sound_example :
    (is_expired 5 ann ≡ false)
    × (((key : ApiKey) × (api_key_header with_key ≡ some key)
          × (find_by_api_key toy_digest key team ≡ some ann))
        ⊎ (api_key_header with_key ≡ none) × SessionOf team cleared ann)
    × (str_eq ann.role "client" ≡ true
        → ((str_eq with_key.method "GET" || str_eq with_key.method "HEAD") ≡ true)
          × (any (λ e. str_eq e with_key.endpoint) client_allowed_endpoints ≡ true))
unfolding require_api_key current_member header_member find_by_api_key api_key_header is_expired
require_api_key_sound_example =
    require_api_key_sound toy_digest 5 hour with_key team cleared ann refl
