-- ===== src/Auth/Admitted.antt =====
-- Who gets past the decorators of app/auth.py.
use ai_agent_first_trust_por.Prelude.{
  ℕ, String, Bool, true, false, ◌||◌, Option, none, some, List, [], ◌≡◌, ◌⊎◌, arith, str_eq, all,
  any, inl, inr, Option-cases, and-left, and-right,
}
use ai_agent_first_trust_por.Team.{TeamMember, Table, ApiKey, is_expired, find_by_api_key}
use ai_agent_first_trust_por.Auth.Header.{Request, is_space, api_key_header}
use ai_agent_first_trust_por.Auth.Blank.{api_key_header-blank}
use ai_agent_first_trust_por.Auth.Session.{Session, session_member, header_member, current_member}
use ai_agent_first_trust_por.Auth.Validity.{SessionOf, session_member-SessionOf}
use ai_agent_first_trust_por.Auth.Gates.{
  proceed, respond, json_error, client_allowed_endpoints, client_may_access, require_api_key, admit,
}

-- What `admit` lets through.
admit-proceed :
    (now : ℕ) (r : Request) (o : Option TeamMember) (via_header : Bool) (s : Session)
    (m : TeamMember)
    → (admit now r o via_header s).0 ≡ proceed m
    → (o ≡ some m)
      × (is_expired now m ≡ false)
      × (str_eq m.role "client" ≡ true → client_may_access r ≡ true)
unfolding admit
admit-proceed now r none via_header s m h = ground arith
admit-proceed now r (some n) via_header s m h = (ground arith, ground arith, ground arith)

may_access-parts :
    (r : Request)
    → client_may_access r ≡ true
    → ((str_eq r.method "GET" || str_eq r.method "HEAD") ≡ true)
      × (any (λ e. str_eq e r.endpoint) client_allowed_endpoints ≡ true)
unfolding client_may_access
may_access-parts r h = (and-left _ _ h, and-right _ _ h)

module _ (sha256 : ApiKey → String) where
  with_header :
      (now lifetime : ℕ) (r : Request) (t : Table) (s : Session) (key : ApiKey)
      → api_key_header r ≡ some key
      → require_api_key sha256 now lifetime r t s
        ≡ admit now r (find_by_api_key sha256 key t) true s
  unfolding require_api_key current_member header_member
  with_header now lifetime r t s key e = rw e (rw (e, header_member))

  without_header :
      (now lifetime : ℕ) (r : Request) (t : Table) (s : Session)
      → api_key_header r ≡ none
      → require_api_key sha256 now lifetime r t s
        ≡ (let (m, s') = session_member now lifetime t s in admit now r m false s')
  unfolding require_api_key current_member
  without_header now lifetime r t s e = rw e

  -- A request that `require_api_key` lets through for a member: the access of the member has not
  -- expired; the request's header carries the member's key, or it carries none and the session is
  -- one of the member's; and a client asks for one of the endpoints open to clients by GET or HEAD.
  pub require_api_key_sound :
      (now lifetime : ℕ) (r : Request) (t : Table) (s : Session) (m : TeamMember)
      → (require_api_key sha256 now lifetime r t s).0 ≡ proceed m
      → (is_expired now m ≡ false)
        × (((key : ApiKey) × (api_key_header r ≡ some key)
              × (find_by_api_key sha256 key t ≡ some m))
            ⊎ (api_key_header r ≡ none) × SessionOf t s m)
        × (str_eq m.role "client" ≡ true
            → ((str_eq r.method "GET" || str_eq r.method "HEAD") ≡ true)
              × (any (λ e. str_eq e r.endpoint) client_allowed_endpoints ≡ true))
  require_api_key_sound now lifetime r t s m h = elim (Option-cases (api_key_header r)) [
    | inl bare ↦
        let (found, s') = session_member now lifetime t s in
        let (is_m, live, client) =
          admit-proceed now r found false s' m (rw (without_header now lifetime r t s bare) at h) in
        (
          live,
          inr (bare, (session_member-SessionOf now lifetime t s m is_m).0),
          λ c. may_access-parts r (client c),
        )
    | inr (key, e) ↦
        let (is_m, live, client) =
          admit-proceed now r (find_by_api_key sha256 key t) true s m
            (rw (with_header now lifetime r t s key e) at h) in
        (live, inl (key, e, is_m), λ c. may_access-parts r (client c))
  ]

  -- A header alone decides: with an API-key header in the request, no session changes the answer.
  pub header_decides :
      (now lifetime : ℕ) (r : Request) (t : Table) (s s' : Session) (key : ApiKey)
      → api_key_header r ≡ some key
      → (require_api_key sha256 now lifetime r t s).0
        ≡ (require_api_key sha256 now lifetime r t s').0
  unfolding admit
  header_decides now lifetime r t s s' key e =
      rw (with_header now lifetime r t s key e, with_header now lifetime r t s' key e)
        (elim (Option-cases (find_by_api_key sha256 key t)) [
          | inl nobody ↦ rw nobody
          | inr (m, found) ↦ rw found (ground arith)
        ])

  -- An X-API-Key header of nothing but spaces is answered 401, whatever the session, which stays.
  pub blank_key_refused :
      (now lifetime : ℕ) (r : Request) (t : Table) (s : Session) (text : List ℕ)
      → r.x_api_key ≡ some text
      → all is_space text ≡ true
      → require_api_key sha256 now lifetime r t s
        ≡ (respond (json_error 401 "Invalid or inactive API key"), s)
  unfolding admit find_by_api_key
  blank_key_refused now lifetime r t s text e h =
      rw (with_header now lifetime r t s [] (api_key_header-blank r text e h)) (ground arith)
