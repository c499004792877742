-- ===== src/Team/Examples.antt =====
-- A small team, to which the results on app/services/team_service.py are applied.
use ai_agent_first_trust_por.Prelude.{
  String, true, false, not, ◌&&◌, none, some, [], ◌∷◌, ◌≡◌, ◌↔◌, refl, any, eq_iff, str_eq,
  Bool-cases, inl, inr, ◌==◌, if◌then◌else◌, arith,
}
use ai_agent_first_trust_por.Team.{
  TeamMember, Table, ApiKey, has_id, is_usable_admin, is_durable_admin, has_usable_key, is_expired,
  other_durable, usable_admins, deactivate_member, last_admin_error,
}
use ai_agent_first_trust_por.Team.Admins.{
  has_durable_admin, deactivate-keeps_durable, deactivate-refused_iff,
}
use ai_agent_first_trust_por.Team.Keys.{DigestsUnique}

-- a digest function with distinct values on the keys used here
abbrev pub toy_digest : ApiKey → String
toy_digest [] = "none"
toy_digest (c ∷ k) = if c == 1 then "one" else if c == 2 then "two" else "three"

abbrev pub ann : TeamMember
ann = record {
  id = "a";
  name = "Ann";
  email = "ann@example.org";
  role = "human";
  api_key_hash = some "one";
  session_epoch = 0;
  key_rotation_required = false;
  is_active = true;
  is_compliance_admin = true;
  expires_at = none;
  company = none;
}

abbrev pub ben : TeamMember
ben = record ann { id = "b"; name = "Ben"; api_key_hash = some "two" }

abbrev pub team : Table
team = ann ∷ ben ∷ []

deactivate-keeps_durable_example : has_durable_admin 5 (deactivate_member 5 "a" team).1 ≡ true
unfolding is_durable_admin is_usable_admin has_usable_key is_expired
deactivate-keeps_durable_example = deactivate-keeps_durable 5 "a" team refl

deactivate-refused_iff_example :
    (deactivate_member 5 "a" (ann ∷ []) ≡ (last_admin_error, ann ∷ [])) ↔ (
      (is_usable_admin 5 ann ≡ true)
      × (any (λ o. not (has_id "a" o) && is_durable_admin 5 o) (ann ∷ []) ≡ false))
deactivate-refused_iff_example = deactivate-refused_iff 5 "a" (ann ∷ []) ann refl

last_admin_stays : deactivate_member 5 "a" (ann ∷ []) ≡ (last_admin_error, ann ∷ [])
unfolding deactivate_member other_durable is_durable_admin is_usable_admin has_usable_key is_expired
    usable_admins
last_admin_stays = refl

team-DigestsUnique : DigestsUnique team
team-DigestsUnique h = elim (Bool-cases (str_eq "one" h)) [
  | inl one ↦ rw (← (eq_iff "one" h).0 one) (omega arith)
  | inr other ↦ rw other (ground arith)
]
