-- ===== src/Auth/Gates.antt =====
-- The decorators of app/auth.py. A gate lets the request through to the view, for a member, or
-- answers it.
use ai_agent_first_trust_por.Prelude.{
  ℕ, String, Bool, false, not, ◌&&◌, ◌||◌, Option, none, some, List, [], ◌∷◌, str_eq, any,
  if◌then◌else◌,
}
use ai_agent_first_trust_por.Team.{TeamMember, Table, ApiKey, is_expired, can_write}
use ai_agent_first_trust_por.Auth.Header.{Request, codes, starts_with, is_browser_request}
use ai_agent_first_trust_por.Auth.Session.{Session, cleared, current_member}

pub data Response : Type 0 where
  login_redirect : Option String → Response
  client_login_redirect : String → Response
  json_error : ℕ → String → Response

pub data Access : Type 0 where
  proceed : TeamMember → Access
  respond : Response → Access

-- `CLIENT_ALLOWED_ENDPOINTS`
abbrev pub client_allowed_endpoints : List String
client_allowed_endpoints =
    "api.compliance_score" ∷ "api.compliance_journey" ∷ "api.list_controls" ∷ "api.evidence_gaps"
    ∷ "api.get_settings" ∷ "crud.list_systems" ∷ "crud.get_systems" ∷ "crud.list_vendors"
    ∷ "crud.get_vendors" ∷ "crud.list_policies" ∷ "crud.get_policies" ∷ "admin.client_report" ∷ []

unfoldable pub client_may_access : Request → Bool
client_may_access r =
    (str_eq r.method "GET" || str_eq r.method "HEAD")
    && any (λ e. str_eq e r.endpoint) client_allowed_endpoints

unauthenticated : Request → Bool → Session → Access × Session
unauthenticated r via_header s = (
  respond (
      if is_browser_request r && not via_header
      then login_redirect none
      else if via_header
      then json_error 401 "Invalid or inactive API key"
      else json_error 401 "Missing API key"),
  s,
)

expired_access : Request → Session → Access × Session
expired_access r s =
    if is_browser_request r
    then (respond (client_login_redirect "expired"), cleared)
    else (respond (json_error 401 "API key has expired"), s)

client_refused : Request → Response
client_refused r =
    if is_browser_request r && not (starts_with r.path (codes "/api/"))
    then login_redirect (some "forbidden")
    else json_error 403 "Client access is limited to the compliance report"

unfoldable pub admit : ℕ → Request → Option TeamMember → Bool → Session → Access × Session
unfolding unauthenticated expired_access client_refused
admit now r none via_header s = unauthenticated r via_header s
admit now r (some m) via_header s =
    if is_expired now m
    then expired_access r s
    else if str_eq m.role "client" && not (client_may_access r)
    then (respond (client_refused r), s)
    else (proceed m, s)

module _ (sha256 : ApiKey → String) where
  unfoldable pub require_api_key : (now lifetime : ℕ) → Request → Table → Session → Access × Session
  unfolding admit
  require_api_key now lifetime r t s =
      let (m, via_header, s') = current_member sha256 now lifetime r t s in
      admit now r m via_header s'

-- The gates below `require_api_key` read the member that it left in `g.current_team_member`.
unfoldable pub require_admin : Request → Option TeamMember → Option Response
require_admin r none = some (
    if is_browser_request r
    then login_redirect (some "forbidden")
    else json_error 403 "Admin access required")
require_admin r (some m) =
    if m.is_compliance_admin
    then none
    else some (
        if is_browser_request r
        then login_redirect (some "forbidden")
        else json_error 403 "Admin access required")

abbrev read_only : Response
read_only = json_error 403 "Read-only access: this key cannot modify compliance data"

unfoldable pub require_writer : Option TeamMember → Option Response
require_writer none = some read_only
require_writer (some m) = if can_write m then none else some read_only

unfoldable pub require_team : Option TeamMember → Option Response
require_team none = some (json_error 403 "Team members only")
require_team (some m) =
    if str_eq m.role "client" then some (json_error 403 "Team members only") else none

unfoldable pub require_client_or_admin : Request → TeamMember → Option Response
require_client_or_admin r m =
    if str_eq m.role "human" || (str_eq m.role "agent" || str_eq m.role "client")
    then none
    else some (
        if is_browser_request r
        then client_login_redirect "forbidden"
        else json_error 403 "Insufficient permissions")

unfoldable pub current_member_is_client : Option TeamMember → Bool
current_member_is_client none = false
current_member_is_client (some m) = str_eq m.role "client"
