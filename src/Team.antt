-- ===== src/Team.antt =====
-- Team members and the operations on them: app/models/team_member.py and
-- app/services/team_service.py. The table is a list of rows in query order. Date-times are
-- microseconds since the epoch, and each operation reads the clock once. A digest function, new
-- random keys and new random ids are arguments.
pub mod Admins
pub mod Keys
pub mod Examples
use ai_agent_first_trust_por.Prelude.{
  ℕ, zero, ◌+◌, ◌*◌, String, Bool, true, false, not, ◌&&◌, ◌||◌, Option, none, some, List, [], ◌∷◌,
  ◌++◌, ltb, is_some, str_eq, any, select, find, update_first, if◌then◌else◌,
}

-- An API key as the code points that a header carries.
abbrev pub ApiKey : Type 0
ApiKey = List ℕ

pub record TeamMember : Type 0 where
  pub id : String
  pub name : String
  pub email : String
  pub role : String
  pub api_key_hash : Option String
  pub session_epoch : ℕ
  pub key_rotation_required : Bool
  pub is_active : Bool
  pub is_compliance_admin : Bool
  pub expires_at : Option ℕ
  pub company : Option String

abbrev pub Table : Type 0
Table = List TeamMember

-- `ROLES`
abbrev pub is_role : String → Bool
is_role role = str_eq role "human" || str_eq role "agent" || str_eq role "client"

digest_text : Option String → String
digest_text none = ""
digest_text (some h) = h

unfoldable pub has_usable_key : TeamMember → Bool
unfolding digest_text
has_usable_key m = not (str_eq (digest_text m.api_key_hash) "")

-- `(self.api_key_hash or "")[:16]`: a digest is ASCII, so its bytes are its characters
unfoldable pub key_fingerprint : TeamMember → String
unfolding digest_text
key_fingerprint m = Prim.Native.String.slice (digest_text m.api_key_hash) 0 16

-- `WRITER_ROLES`
unfoldable pub can_write : TeamMember → Bool
can_write m = str_eq m.role "human" || str_eq m.role "agent"

expired_at : ℕ → Option ℕ → Bool
expired_at now none = false
expired_at now (some e) = ltb e now

unfoldable pub is_expired : ℕ → TeamMember → Bool
unfolding expired_at
is_expired now m = expired_at now m.expires_at

abbrev pub has_digest : String → TeamMember → Bool
has_digest h m = elim m.api_key_hash [ none ↦ false | some g ↦ str_eq g h ]

abbrev pub has_id : String → TeamMember → Bool
has_id i m = str_eq m.id i

-- `DURABLE_ADMIN_MARGIN`, 30 days
abbrev pub durable_admin_margin : ℕ
durable_admin_margin = 30 * 86400 * 1000000

unfoldable pub is_usable_admin : ℕ → TeamMember → Bool
is_usable_admin now m =
    m.is_compliance_admin && (m.is_active && (has_usable_key m && not (is_expired now m)))

expiry_beyond : ℕ → Option ℕ → Bool
expiry_beyond now none = true
expiry_beyond now (some e) = ltb (now + durable_admin_margin) e

unfoldable pub is_durable_admin : ℕ → TeamMember → Bool
unfolding expiry_beyond
is_durable_admin now m = if is_usable_admin now m then expiry_beyond now m.expires_at else false

-- the `WHERE` of `usable_admins`: a digest that is not NULL, and the filter on the expiry
abbrev pub is_listed_admin : ℕ → TeamMember → Bool
is_listed_admin now m =
    m.is_compliance_admin && (m.is_active && (is_some m.api_key_hash && not (is_expired now m)))

unfoldable pub usable_admins : ℕ → Table → List TeamMember
usable_admins now t = select (is_listed_admin now) t

unfoldable pub admin_exists : ℕ → Table → Bool
unfolding usable_admins
admin_exists now t = elim (usable_admins now t) [ [] ↦ false | _ ∷ _ ↦ true ]

pub data Deactivation : Type 0 where
  no_such_member : Deactivation
  last_admin_error : Deactivation
  deactivated : TeamMember → Deactivation

-- another durable admin among the usable ones
unfoldable pub other_durable : ℕ → TeamMember → Table → Bool
unfolding usable_admins
other_durable now m t =
    any (λ other. not (str_eq other.id m.id) && is_durable_admin now other) (usable_admins now t)

abbrev pub inactive : TeamMember → TeamMember
inactive m = record m { is_active = false }

deactivate_found : ℕ → String → Table → Option TeamMember → Deactivation × Table
deactivate_found now i t none = (no_such_member, t)
deactivate_found now i t (some m) =
    if is_usable_admin now m && not (other_durable now m t)
    then (last_admin_error, t)
    else (deactivated (inactive m), update_first (has_id i) inactive t)

unfoldable pub deactivate_member : ℕ → String → Table → Deactivation × Table
unfolding deactivate_found
deactivate_member now i t = deactivate_found now i t (find (has_id i) t)

module _ (sha256 : ApiKey → String) where
  -- The new row, or `none` for the ValueError on an unknown role; the key is returned once.
  unfoldable pub create_member :
      (new_id name email role : String) (admin : Bool) (company : Option String)
      (expires_at : Option ℕ) (new_key : ApiKey) (t : Table)
      → Option (TeamMember × ApiKey) × Table
  create_member new_id name email role admin company expires_at new_key t =
      let m : TeamMember = record {
        id = new_id;
        name = name;
        email = email;
        role = role;
        api_key_hash = some (sha256 new_key);
        session_epoch = 0;
        key_rotation_required = false;
        is_active = true;
        is_compliance_admin = admin;
        expires_at = expires_at;
        company = company;
      } in
      if is_role role then (some (m, new_key), t ++ m ∷ []) else (none, t)

  unfoldable pub find_by_api_key : ApiKey → Table → Option TeamMember
  find_by_api_key [] t = none
  find_by_api_key (c ∷ cs) t = find (λ m. has_digest (sha256 (c ∷ cs)) m && m.is_active) t

  abbrev pub rekeyed : ApiKey → TeamMember → TeamMember
  rekeyed new_key m = record m {
    api_key_hash = some (sha256 new_key);
    key_rotation_required = false;
  }

  regenerate_found :
      String → ApiKey → Table → Option TeamMember → Option (TeamMember × ApiKey) × Table
  regenerate_found i new_key t none = (none, t)
  regenerate_found i new_key t (some m) =
      (some (rekeyed new_key m, new_key), update_first (has_id i) (rekeyed new_key) t)

  unfoldable pub regenerate_key : String → ApiKey → Table → Option (TeamMember × ApiKey) × Table
  unfolding regenerate_found
  regenerate_key i new_key t = regenerate_found i new_key t (find (has_id i) t)
