-- ===== src/Team/Admins.antt =====
-- The portal keeps a durable admin.
use mathlib.Core.Path.{fun_ext}
use ai_agent_first_trust_por.Prelude.{
  ℕ, String, Bool, true, false, not, ◌&&◌, Option, none, some, [], ◌∷◌, ◌≡◌, ◌↔◌, ◌∙◌, ap, refl,
  inl, inr, arith, eq_iff, str_eq, is_some, any, find, update_first, any-select, any_mono,
  find-holds, Option-cases,
}
use ai_agent_first_trust_por.Team.{
  TeamMember, Table, has_id, inactive, is_usable_admin, is_durable_admin, has_usable_key,
  digest_text, usable_admins, other_durable, is_listed_admin, deactivate_member, last_admin_error,
}

abbrev pub has_durable_admin : ℕ → Table → Bool
has_durable_admin now t = any (is_durable_admin now) t

durable-usable :
    (now : ℕ) (m : TeamMember) → is_usable_admin now m ≡ false → is_durable_admin now m ≡ false
unfolding is_durable_admin
durable-usable now m h = ground arith

-- A durable admin with another id stays when the row of the id `i` is changed.
durable-update_other :
    (now : ℕ) (i : String) (f : TeamMember → TeamMember) (t : Table)
    → any (λ o. not (has_id i o) && is_durable_admin now o) t ≡ true
    → has_durable_admin now (update_first (has_id i) f t) ≡ true
durable-update_other now i f [] h = h
durable-update_other now i f (m ∷ t) h = ground (
  arith,
  durable-update_other now i f t,
  any_mono (λ o. not (has_id i o) && is_durable_admin now o) (is_durable_admin now) t
      (λ o e. ground arith),
)

-- Changing the row that `i` names keeps a durable admin if that row is none.
durable-update_first :
    (now : ℕ) (i : String) (f : TeamMember → TeamMember) (t : Table) (m : TeamMember)
    → find (has_id i) t ≡ some m
    → is_durable_admin now m ≡ false
    → has_durable_admin now t ≡ true
    → has_durable_admin now (update_first (has_id i) f t) ≡ true
durable-update_first now i f [] m e d h = h
durable-update_first now i f (x ∷ t) m e d h = ground (arith, durable-update_first now i f t m)

digest-is_some : (o : Option String) → not (str_eq (digest_text o) "") ≡ true → is_some o ≡ true
unfolding digest_text
digest-is_some none h = h
digest-is_some (some d) h = refl

-- A durable admin is among the rows that `usable_admins` reads.
durable-listed :
    (now : ℕ) (m : TeamMember) (b : Bool)
    → (is_listed_admin now m && (b && is_durable_admin now m)) ≡ (b && is_durable_admin now m)
unfolding is_durable_admin is_usable_admin has_usable_key
durable-listed now m b = ground (arith, digest-is_some m.api_key_hash)

other_durable-eq :
    (now : ℕ) (m : TeamMember) (t : Table)
    → other_durable now m t ≡ any (λ o. not (has_id m.id o) && is_durable_admin now o) t
unfolding other_durable usable_admins
other_durable-eq now m t =
    any-select _ _ t ∙ ap (λ (p : TeamMember → Bool). any p t) (fun_ext λ o. durable-listed now o _)

-- Whatever the outcome, deactivating a member leaves a durable admin if there was one.
pub deactivate-keeps_durable :
    (now : ℕ) (i : String) (t : Table)
    → has_durable_admin now t ≡ true
    → has_durable_admin now (deactivate_member now i t).1 ≡ true
unfolding deactivate_member
deactivate-keeps_durable now i t h = elim (Option-cases (find (has_id i) t)) [
  | inl e ↦ rw e h
  | inr (m, e) ↦ ground (
    arith,
    durable-update_first now i inactive t m,
    durable-update_other now i inactive t,
    other_durable-eq now m t,
    durable-usable now m,
    find-holds (has_id i) t m e,
    eq_iff m.id i,
  )
]

-- For a member of the table, deactivation is refused exactly when the member is a usable admin and
-- no durable admin of the whole table has another id, and a refusal changes no row.
pub deactivate-refused_iff :
    (now : ℕ) (i : String) (t : Table) (m : TeamMember)
    → find (has_id i) t ≡ some m
    → (deactivate_member now i t ≡ (last_admin_error, t)) ↔ (
        (is_usable_admin now m ≡ true)
        × (any (λ o. not (has_id i o) && is_durable_admin now o) t ≡ false))
unfolding deactivate_member
deactivate-refused_iff now i t m e = rw e (
    rw (other_durable-eq now m t)
      (rw ((eq_iff m.id i).0 (find-holds (has_id i) t m e)) (ground arith)))
