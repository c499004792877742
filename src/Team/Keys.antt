-- ===== src/Team/Keys.antt =====
-- Issuing, replacing and withdrawing API keys.
use ai_agent_first_trust_por.Prelude.{
  ℕ, ◌+◌, ◌≤◌, ◌<◌, String, Bool, true, false, ◌&&◌, Option, none, some, List, [], ◌∷◌, ◌++◌, ◌≡◌,
  refl, arith, eq_iff, eq_refl, str_eq, any, find, update_first, count_by, Bool-cases, Option-cases,
  inl, inr, str_eq_sym,
}
use ai_agent_first_trust_por.Team.{
  TeamMember, Table, ApiKey, has_id, has_digest, inactive, deactivate_member, deactivated, is_role,
  rekeyed, create_member, regenerate_key, find_by_api_key,
}

module _ {ℓ} {A : Type ℓ} (p q : A → Bool) where
  counted_of_found : (t : List A) (m : A) → find p t ≡ some m → q m ≡ true → 0 < count_by q t
  counted_of_found [] m e a = ground arith
  counted_of_found (x ∷ t) m e a = ground (arith, counted_of_found t m)

module _ {ℓ} {A : Type ℓ} (q : A → Bool) where
  none_counted : (r : List A) → count_by q r ≤ 0 → any q r ≡ false
  none_counted [] h = refl
  none_counted (y ∷ r) h = ground (arith, none_counted r)

  count-none : (r : List A) → any q r ≡ false → count_by q r ≡ 0
  count-none [] h = refl
  count-none (y ∷ r) h = ground (arith, count-none r)

  any-and : (p : A → Bool) (r : List A) → any q r ≡ false → any (λ x. q x && p x) r ≡ false
  any-and p [] h = refl
  any-and p (y ∷ r) h = ground (arith, any-and p r)

  find-none : (t : List A) → any q t ≡ false → find q t ≡ none
  find-none [] h = refl
  find-none (y ∷ t) h = ground (arith, find-none t)

  count-append : (xs ys : List A) → count_by q (xs ++ ys) ≡ count_by q xs + count_by q ys
  count-append [] ys = omega arith
  count-append (x ∷ xs) ys = ground (arith, count-append xs ys)

module _ {ℓ} {A : Type ℓ} (p q : A → Bool) (f : A → A) where
  -- The only row with a property loses it, or what else is asked, by an update.
  any-update_first_gone :
      (r : A → Bool) (t : List A) (m : A)
      → find p t ≡ some m
      → q m ≡ true
      → (q (f m) && r (f m)) ≡ false
      → count_by q t ≤ 1
      → any (λ x. q x && r x) (update_first p f t) ≡ false
  any-update_first_gone r [] m e a b c = refl
  any-update_first_gone r (x ∷ t) m e a b c = ground (
    arith,
    any-update_first_gone r t m,
    any-and q r t,
    none_counted q t,
    counted_of_found p q t m,
  )

  count-update_first :
      (t : List A) (m : A)
      → find p t ≡ some m
      → any q t ≡ false
      → count_by q (update_first p f t) ≤ 1
  count-update_first [] m e a = omega arith
  count-update_first (x ∷ t) m e a = ground (arith, count-update_first t m, count-none q t)

  -- A row that had a property before its update is counted at most as often after it.
  count-update_first_le :
      (t : List A)
      → ((x : A) → q (f x) ≡ true → q x ≡ true)
      → count_by q (update_first p f t) ≤ count_by q t
  count-update_first_le [] h = omega arith
  count-update_first_le (x ∷ t) h = ground (arith, count-update_first_le t h, h x)

  -- The only row with a property is the one that an update gave it.
  find-update_first_new :
      (t : List A) (m : A)
      → find p t ≡ some m
      → any q t ≡ false
      → q (f m) ≡ true
      → find q (update_first p f t) ≡ some (f m)
  find-update_first_new [] m e a b = ground arith
  find-update_first_new (x ∷ t) m e a b = ground (arith, find-update_first_new t m)

-- `unique=True` of the column `api_key_hash`
abbrev pub DigestsUnique : Table → Type 0
DigestsUnique t = (h : String) → count_by (has_digest h) t ≤ 1

-- A digest that no row has differs from a row's digest.
digests_differ :
    (g h : String) (p : TeamMember → Bool) (t : Table) (m : TeamMember)
    → find p t ≡ some m
    → m.api_key_hash ≡ some g
    → any (has_digest h) t ≡ false
    → str_eq h g ≡ false
digests_differ g h p t m e k fresh = elim (Bool-cases (str_eq h g)) [
  | inl same ↦ absurd (
      omega (
        arith,
        counted_of_found p (has_digest h) t m e (rw k (str_eq_sym h g same)),
        count-none (has_digest h) t fresh,
      ))
  | inr differ ↦ differ
]

append-DigestsUnique :
    (g : String) (t : Table) (m : TeamMember)
    → m.api_key_hash ≡ some g
    → DigestsUnique t
    → any (has_digest g) t ≡ false
    → DigestsUnique (t ++ m ∷ [])
append-DigestsUnique g t m k u fresh h = elim (Bool-cases (str_eq g h)) [
  | inl same ↦
      rw (← (eq_iff g h).0 same)
        (ground (arith, count-append (has_digest g) t (m ∷ []), count-none (has_digest g) t fresh))
  | inr differ ↦ ground (arith, u h, count-append (has_digest h) t (m ∷ []))
]

rekeyed-DigestsUnique :
    (g : String) (p : TeamMember → Bool) (f : TeamMember → TeamMember) (t : Table) (m : TeamMember)
    → find p t ≡ some m
    → ((x : TeamMember) → (f x).api_key_hash ≡ some g)
    → DigestsUnique t
    → any (has_digest g) t ≡ false
    → DigestsUnique (update_first p f t)
rekeyed-DigestsUnique g p f t m e k u fresh h = elim (Bool-cases (str_eq g h)) [
  | inl same ↦ rw (← (eq_iff g h).0 same) (count-update_first p (has_digest g) f t m e fresh)
  | inr differ ↦ ground (
    arith,
    u h,
    count-update_first_le p (has_digest h) f t (λ x held. absurd (ground (arith, k x))),
  )
]

module _ (sha256 : ApiKey → String) where
  -- In a table of unique digests, a new key for a member with the key `old`: the old key
  -- authenticates nobody, and the new one, if no row has its digest yet and the member is active,
  -- authenticates that member and nobody else.
  pub regenerate_replaces_key :
      (i : String) (c d : ℕ) (old new : ApiKey) (t : Table) (m : TeamMember)
      → find (has_id i) t ≡ some m
      → m.api_key_hash ≡ some (sha256 (c ∷ old))
      → m.is_active ≡ true
      → DigestsUnique t
      → any (has_digest (sha256 (d ∷ new))) t ≡ false
      → let t' = (regenerate_key sha256 i (d ∷ new) t).1 in
        (find_by_api_key sha256 (c ∷ old) t' ≡ none)
        × (find_by_api_key sha256 (d ∷ new) t' ≡ some (rekeyed sha256 (d ∷ new) m))
  unfolding regenerate_key find_by_api_key
  regenerate_replaces_key i c d old new t m e k a u fresh =
      let q_old : TeamMember → Bool = has_digest (sha256 (c ∷ old)) in
      let q_new : TeamMember → Bool = has_digest (sha256 (d ∷ new)) in
      let m' : TeamMember = rekeyed sha256 (d ∷ new) m in
      let had : q_old m ≡ true = rw k (eq_refl (sha256 (c ∷ old))) in
      let has : q_new m' ≡ true = eq_refl (sha256 (d ∷ new)) in
      let differ : q_old m' ≡ false =
        digests_differ (sha256 (c ∷ old)) (sha256 (d ∷ new)) (has_id i) t m e k fresh in
      let t' : Table = update_first (has_id i) (rekeyed sha256 (d ∷ new)) t in
      rw e (
        find-none (λ x. q_old x && x.is_active) t'
            (any-update_first_gone (has_id i) q_old (rekeyed sha256 (d ∷ new)) (λ x. x.is_active) t
              m e had (rw differ) (u _)),
        find-update_first_new (has_id i) (λ x. q_new x && x.is_active) (rekeyed sha256 (d ∷ new)) t
            m e (any-and q_new (λ x. x.is_active) t fresh) (rw has a),
      )

  -- In a table of unique digests: once a member who holds a key is deactivated, that key
  -- authenticates nobody.
  pub deactivated_key-none :
      (now : ℕ) (i : String) (c : ℕ) (key : ApiKey) (t : Table) (m : TeamMember)
      → find (has_id i) t ≡ some m
      → m.api_key_hash ≡ some (sha256 (c ∷ key))
      → DigestsUnique t
      → (deactivate_member now i t).0 ≡ deactivated (inactive m)
      → find_by_api_key sha256 (c ∷ key) (deactivate_member now i t).1 ≡ none
  unfolding deactivate_member find_by_api_key
  deactivated_key-none now i c key t m e k u ok =
      let q : TeamMember → Bool = has_digest (sha256 (c ∷ key)) in
      let had : q m ≡ true = rw k (eq_refl (sha256 (c ∷ key))) in
      let gone : any (λ x. q x && x.is_active) (update_first (has_id i) inactive t) ≡ false =
        any-update_first_gone (has_id i) q inactive (λ x. x.is_active) t m e had (ground arith)
          (u _) in
      let found : find (λ x. q x && x.is_active) (update_first (has_id i) inactive t) ≡ none =
        find-none (λ x. q x && x.is_active) (update_first (has_id i) inactive t) gone in
      ground (arith, found)

  -- A new member whose key's digest no row has keeps the digests unique.
  pub create-DigestsUnique :
      (i n e r : String) (admin : Bool) (co : Option String) (x : Option ℕ) (key : ApiKey)
      (t : Table)
      → DigestsUnique t
      → any (has_digest (sha256 key)) t ≡ false
      → DigestsUnique (create_member sha256 i n e r admin co x key t).1
  unfolding create_member
  create-DigestsUnique i n e r admin co x key t u fresh = elim (Bool-cases (is_role r)) [
    | inl known ↦ rw known (append-DigestsUnique (sha256 key) t _ refl u fresh)
    | inr unknown ↦ rw unknown u
  ]

  -- A new key whose digest no row has keeps the digests unique.
  pub regenerate-DigestsUnique :
      (i : String) (key : ApiKey) (t : Table)
      → DigestsUnique t
      → any (has_digest (sha256 key)) t ≡ false
      → DigestsUnique (regenerate_key sha256 i key t).1
  unfolding regenerate_key
  regenerate-DigestsUnique i key t u fresh = elim (Option-cases (find (has_id i) t)) [
    | inl e ↦ rw e u
    | inr (m, e) ↦ rw e (
        rekeyed-DigestsUnique (sha256 key) (has_id i) (rekeyed sha256 key) t m e (λ x. refl) u
          fresh)
  ]
