-- ===== src/Auth/Validity.antt =====
-- When a browser session of app/auth.py stands for a member.
use ai_agent_first_trust_por.Prelude.{
  ℕ, ◌+◌, ◌-◌, ◌*◌, ◌/◌, ◌≤◌, String, true, false, Option, none, some, ◌≡◌, ap, refl, arith, leb,
  str_eq, eq_iff, eq_refl, find, Option-cases, inl, inr, if◌then◌else◌,
}
use ai_agent_first_trust_por.Team.{TeamMember, Table, has_id, has_usable_key, key_fingerprint}
use ai_agent_first_trust_por.Auth.Session.{
  Session, Value, num, flag, text, fingerprint_is, second, clock_skew, login_session,
  session_expired, epoch_matches, session_names, session_member,
}

-- What a valid session of a member carries.
pub record SessionOf (t : Table) (s : Session) (m : TeamMember) : Type 0 where
  pub row : (i : String) × (s.member_id ≡ some i) × (find (has_id i) t ≡ some m)
  pub active : m.is_active ≡ true
  pub usable_key : has_usable_key m ≡ true
  pub fingerprint : s.key_fp ≡ some (key_fingerprint m)
  pub epoch : epoch_matches m s ≡ true

fingerprint-eq : (fp : String) (o : Option String) → fingerprint_is fp o ≡ true → o ≡ some fp
unfolding fingerprint_is
fingerprint-eq fp none h = ground arith
fingerprint-eq fp (some g) h = ap some ((eq_iff g fp).0 h)

-- A session that is not too old.
age-bound :
    (now lifetime : ℕ) (s : Session) (v : Value)
    → (session_expired now lifetime s).0 ≡ false
    → s.login_at ≡ some v
    → (at : ℕ) × (v ≡ num at) × (at * second ≤ now + clock_skew) × (now ≤ at * second + lifetime)
unfolding session_expired
age-bound now lifetime s (num at) h e = (at, refl, ground arith, ground arith)
age-bound now lifetime s (flag b) h e = ground arith
age-bound now lifetime s (text x) h e = ground arith

-- The lookup of a session that stands for a member.
pub member-found :
    (now lifetime : ℕ) (t : Table) (s : Session) (m : TeamMember)
    → (session_member now lifetime t s).0 ≡ some m
    → ((i : String) × (s.member_id ≡ some i) × (find (has_id i) t ≡ some m))
      × (session_names m s ≡ true)
      × ((session_expired now lifetime s).0 ≡ false)
unfolding session_member session_names epoch_matches session_expired
member-found now lifetime t s m h = elim (Option-cases s.member_id) [
  | inl e ↦ ground arith
  | inr (i, e) ↦ elim (Option-cases (find (has_id i) t)) [
    | inl f ↦ ground arith
    | inr (n, f) ↦ ((i, e, ground arith), ground arith, ground arith)
  ]
]

-- A session that stands for a member names the member's row, key and epoch, the member is active
-- and holds a key, and the recorded login time, where there is one, is at most the clock skew
-- ahead and at most the lifetime ago.
pub session_member-SessionOf :
    (now lifetime : ℕ) (t : Table) (s : Session) (m : TeamMember)
    → (session_member now lifetime t s).0 ≡ some m
    → SessionOf t s m
      × ((v : Value)
          → s.login_at ≡ some v
          → (at : ℕ) × (v ≡ num at)
            × (at * second ≤ now + clock_skew)
            × (now ≤ at * second + lifetime))
unfolding session_names
session_member-SessionOf now lifetime t s m h =
    let (row, names, young) = member-found now lifetime t s m h in
    (
      record {
        row = row;
        active = ground arith;
        usable_key = ground arith;
        fingerprint = fingerprint-eq (key_fingerprint m) s.key_fp (ground arith);
        epoch = ground arith;
      },
      λ v. age-bound now lifetime s v young,
    )

-- After a login, the session stands for the member exactly until its age passes the lifetime, as
-- long as the member's row does not change.
pub session_member-login_session :
    (now later lifetime : ℕ) (t : Table) (m : TeamMember)
    → find (has_id m.id) t ≡ some m
    → str_eq m.id "" ≡ false
    → m.is_active ≡ true
    → has_usable_key m ≡ true
    → now ≤ later
    → (session_member later lifetime t (login_session now m)).0
      ≡ (if leb (later - now / second * second) lifetime then some m else none)
unfolding session_member login_session session_names epoch_matches session_expired
session_member-login_session now later lifetime t m e i a k le =
    rw (i, e) (ground (arith, eq_refl (key_fingerprint m)))
