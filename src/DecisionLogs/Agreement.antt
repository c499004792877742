-- ===== src/DecisionLogs/Agreement.antt =====
-- Lemmas on where stored entries and an export's entries agree, and on the list that an import joins
-- from both: app/services/evidence_import_decision_logs.py.
use ai_agent_first_trust_por.Prelude.{
  ℕ, zero, suc, ◌<◌, ◌≤◌, String, true, Option, none, some, List, [], ◌∷◌, ◌++◌, ◌≡◌, refl, ap,
  arith, length, take, drop, eq_refl, Option-cases, inl, inr,
}
use ai_agent_first_trust_por.DecisionLogs.Entries.{
  Entry, eq_text, eq_instant, eq_bool, same_columns, same_entry,
}
use ai_agent_first_trust_por.DecisionLogs.Compared.{first_difference, agreed, later}

eq_text_refl : (o : Option String) → eq_text o o ≡ true
eq_text_refl none = refl
eq_text_refl (some s) = eq_refl s

eq_instant_refl : (o : Option ℕ) → eq_instant o o ≡ true
eq_instant_refl none = refl
eq_instant_refl (some n) = ground arith

eq_bool_refl : (b : _) → eq_bool b b ≡ true
eq_bool_refl b = ground arith

module _ (reencode : String → Option String) where
  pub same_entry_refl : (e : Entry) → same_entry reencode e e ≡ true
  unfolding same_entry same_columns
  same_entry_refl e = ground (
    arith,
    eq_text_refl e.role,
    eq_text_refl e.content_text,
    eq_text_refl e.tool_calls,
    eq_text_refl e.message_id,
    eq_instant_refl e.timestamp,
    eq_bool_refl e.is_verification,
  )

  later-none : (o : Option ℕ) → later o ≡ none → o ≡ none
  later-none none h = refl
  later-none (some d') h = cc

  -- A difference lies below both lengths, and all entries before it agree.
  pub difference-bounds :
      (rs es : List Entry) (d : ℕ)
      → first_difference reencode rs es ≡ some d
      → (d < length rs) × (d < length es) × (agreed reencode rs es ≡ d)
  unfolding first_difference agreed
  difference-bounds [] es d h = cc
  difference-bounds (r ∷ rs) [] d h = cc
  difference-bounds (r ∷ rs) (e ∷ es) zero h =
      elim (Option-cases (first_difference reencode rs es)) [
        | inl none_later ↦ ground arith
        | inr (d', e') ↦ ground arith
      ]
  difference-bounds (r ∷ rs) (e ∷ es) (suc d) h =
      elim (Option-cases (first_difference reencode rs es)) [
        | inl none_later ↦ ground arith
        | inr (d', e') ↦ ground (arith, difference-bounds rs es d)
      ]

  -- Without a difference all entries below both lengths agree.
  pub agreed-of_shorter :
      (rs es : List Entry)
      → first_difference reencode rs es ≡ none
      → length rs ≤ length es
      → agreed reencode rs es ≡ length rs
  unfolding first_difference agreed
  agreed-of_shorter [] es h le = refl
  agreed-of_shorter (r ∷ rs) [] h le = absurd (omega arith)
  agreed-of_shorter (r ∷ rs) (e ∷ es) h le =
      ground (arith, agreed-of_shorter rs es, later-none (first_difference reencode rs es))

  pub agreed-of_longer :
      (rs es : List Entry)
      → first_difference reencode rs es ≡ none
      → length es ≤ length rs
      → agreed reencode rs es ≡ length es
  unfolding first_difference agreed
  agreed-of_longer [] [] h le = refl
  agreed-of_longer [] (e ∷ es) h le = absurd (omega arith)
  agreed-of_longer (r ∷ rs) [] h le = refl
  agreed-of_longer (r ∷ rs) (e ∷ es) h le =
      ground (arith, agreed-of_longer rs es, later-none (first_difference reencode rs es))

  -- Stored entries that agree, followed by the export's other ones, are the export's entries.
  pub joined-first_difference :
      (n : ℕ) (rs es : List Entry)
      → n ≤ agreed reencode rs es
      → first_difference reencode (take n rs ++ drop n es) es ≡ none
  unfolding first_difference agreed
  joined-first_difference zero rs [] h = refl
  joined-first_difference zero rs (e ∷ es) h =
      rw same_entry_refl (ap later (joined-first_difference zero rs es (omega arith)))
  joined-first_difference (suc n) [] es h = absurd (omega arith)
  joined-first_difference (suc n) (r ∷ rs) [] h = absurd (omega arith)
  joined-first_difference (suc n) (r ∷ rs) (e ∷ es) h =
      ground (arith, joined-first_difference n rs es)

  pub joined-length :
      (n : ℕ) (rs es : List Entry)
      → n ≤ agreed reencode rs es
      → length (take n rs ++ drop n es) ≡ length es
  unfolding agreed
  joined-length zero rs es h = refl
  joined-length (suc n) [] es h = absurd (omega arith)
  joined-length (suc n) (r ∷ rs) [] h = absurd (omega arith)
  joined-length (suc n) (r ∷ rs) (e ∷ es) h = ground (arith, joined-length n rs es)

-- Taking the first entries of a joined list, up to where it was joined.
pub take-joined :
    (n m : ℕ) (rs es : List Entry) → n ≤ m → m ≤ length rs → take n (take m rs ++ es) ≡ take n rs
take-joined zero m rs es h le = refl
take-joined (suc n) zero rs es h le = absurd (omega arith)
take-joined (suc n) (suc m) [] es h le = absurd (omega arith)
take-joined (suc n) (suc m) (r ∷ rs) es h le =
    ap (λ t. r ∷ t) (take-joined n m rs es (omega arith) (omega arith))
