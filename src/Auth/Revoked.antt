-- ===== src/Auth/Revoked.antt =====
-- What ends the browser sessions of app/auth.py: a logout, a new key, a deactivation.
use ai_agent_first_trust_por.Prelude.{
  ℕ, String, true, false, none, some, ◌≡◌, ◌∙◌, refl, arith, str_eq, eq_iff, eq_refl, find,
  find-holds, find-update_first_self, update_first,
}
use ai_agent_first_trust_por.Team.{
  TeamMember, Table, ApiKey, has_id, key_fingerprint, inactive, rekeyed, regenerate_key,
  deactivate_member, deactivated,
}
use ai_agent_first_trust_por.Auth.Session.{
  Session, next_epoch, epoch_matches, session_names, session_member, logout_session,
}
use ai_agent_first_trust_por.Auth.Validity.{member-found}

-- A session whose member's row does not bear it out stands for nobody.
refused-none :
    (now lifetime : ℕ) (t : Table) (s : Session) (i : String) (m : TeamMember)
    → s.member_id ≡ some i
    → find (has_id i) t ≡ some m
    → session_names m s ≡ false
    → (session_member now lifetime t s).0 ≡ none
unfolding session_member session_names epoch_matches
refused-none now lifetime t s i m e f h = ground arith

next_epoch-differs :
    (m : TeamMember) (s : Session)
    → epoch_matches m s ≡ true
    → session_names (next_epoch m) s ≡ false
unfolding session_names epoch_matches
next_epoch-differs m s h = ground arith

-- A logout with a session of a member ends every session of that member with the epoch of that
-- time, copies of the cookie included: at no later time, and under no lifetime, does one stand for
-- anybody in the table that the logout left.
pub logout_revokes :
    (now later lifetime lifetime' : ℕ) (t : Table) (s copy : Session) (m : TeamMember)
    → (session_member now lifetime t s).0 ≡ some m
    → copy.member_id ≡ s.member_id
    → epoch_matches m copy ≡ true
    → (session_member later lifetime' (logout_session now lifetime t s).0 copy).0 ≡ none
unfolding logout_session
logout_revokes now later lifetime lifetime' t s copy m h c epoch =
    let ((i, e, f), names, young) = member-found now lifetime t s m h in
    let id_is : m.id ≡ i = (eq_iff m.id i).0 (find-holds (has_id i) t m f) in
    let found : find (has_id m.id) t ≡ some m = simp id_is f in
    rw h (
      refused-none later lifetime' (update_first (has_id m.id) next_epoch t) copy m.id
        (next_epoch m) (simp id_is (c ∙ e))
        (find-update_first_self (has_id m.id) next_epoch t m found (eq_refl m.id))
        (next_epoch-differs m copy epoch))

module _ (sha256 : ApiKey → String) where
  -- A new key with another fingerprint ends the sessions that carry the fingerprint of the old one.
  pub rotation_ends_sessions :
      (now lifetime : ℕ) (i : String) (key : ApiKey) (t : Table) (s : Session) (m : TeamMember)
      → find (has_id i) t ≡ some m
      → s.member_id ≡ some i
      → s.key_fp ≡ some (key_fingerprint m)
      → str_eq (key_fingerprint m) (key_fingerprint (rekeyed sha256 key m)) ≡ false
      → (session_member now lifetime (regenerate_key sha256 i key t).1 s).0 ≡ none
  unfolding regenerate_key
  rotation_ends_sessions now lifetime i key t s m f e k d = rw f (
      refused-none now lifetime (update_first (has_id i) (rekeyed sha256 key) t) s i
        (rekeyed sha256 key m) e
        (find-update_first_self (has_id i) (rekeyed sha256 key) t m f (find-holds (has_id i) t m f))
        (unfold session_names in rw k (ground arith)))

-- No session stands for a deactivated member.
pub deactivation_ends_sessions :
    (now later lifetime : ℕ) (i : String) (t : Table) (s : Session) (m : TeamMember)
    → find (has_id i) t ≡ some m
    → (deactivate_member now i t).0 ≡ deactivated (inactive m)
    → s.member_id ≡ some i
    → (session_member later lifetime (deactivate_member now i t).1 s).0 ≡ none
unfolding deactivate_member
deactivation_ends_sessions now later lifetime i t s m f h e = ground (
  arith,
  refused-none later lifetime (update_first (has_id i) inactive t) s i (inactive m) e
      (find-update_first_self (has_id i) inactive t m f (find-holds (has_id i) t m f))
      (unfold session_names in refl),
)
