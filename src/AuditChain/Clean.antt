-- ===== src/AuditChain/Clean.antt =====
-- What a pass of `verify_chain` in app/services/audit_chain.py finds, and when it finds nothing.
use ai_agent_first_trust_por.Prelude.{
  ℕ, String, Bool, true, false, Option, none, some, List, [], ◌∷◌, ◌++◌, ◌≡◌, ◌↔◌, ◌∙◌, ap, refl,
  arith, str_eq, eq_iff, eq_refl, if◌then◌else◌, append_assoc, append-nil, Option-cases, inl, inr,
}
use ai_agent_first_trust_por.AuditLog.{Row, row_text, computed, is_truthy, eq_hash}
use ai_agent_first_trust_por.AuditChain.Scan.{
  Progress, is_linked, is_altered, next_expected, check_row, check_rows,
}

snoc_if {ℓ} :
    {A : Type ℓ} (b : Bool) (xs : List A) (x : A) (rest : List A)
    → (if b then xs ++ x ∷ [] else xs) ++ rest ≡ xs ++ (if b then x ∷ rest else rest)
snoc_if true xs x rest = append_assoc xs (x ∷ []) rest
snoc_if false xs x rest = refl

snoc_unless {ℓ} :
    {A : Type ℓ} (b : Bool) (xs : List A) (x : A) (rest : List A)
    → (if b then xs else xs ++ x ∷ []) ++ rest ≡ xs ++ (if b then rest else x ∷ rest)
snoc_unless true xs x rest = refl
snoc_unless false xs x rest = append_assoc xs (x ∷ []) rest

eq_hash-eq : (o : Option String) (h : String) → eq_hash o h ≡ true → o ≡ some h
eq_hash-eq none h e = ground arith
eq_hash-eq (some g) h e = ap some ((eq_iff g h).0 e)

module _ (sha256_hex : String → String) (versioned : Bool) where
  -- The ids of the altered rows, and the rows that do not link to what stands before them.
  unfoldable pub altered_ids : List Row → List ℕ
  altered_ids [] = []
  altered_ids (r ∷ rows) =
      let rest = altered_ids rows in if is_altered sha256_hex versioned r then r.id ∷ rest else rest

  unfoldable pub unlinked : String → List Row → List (ℕ × Option String)
  unlinked expected [] = []
  unlinked expected (r ∷ rows) =
      let rest = unlinked (next_expected sha256_hex versioned expected r) rows in
      if is_linked sha256_hex versioned expected r
      then rest
      else (r.id, if is_truthy r.row_hash then r.previous_hash else none) ∷ rest

  pub mismatches-check_rows :
      (p : Progress) (rows : List Row)
      → (check_rows sha256_hex versioned p rows).content_mismatch_ids
        ≡ p.content_mismatch_ids ++ altered_ids rows
  unfolding check_rows check_row altered_ids
  mismatches-check_rows p [] = rw append-nil
  mismatches-check_rows p (r ∷ rows) =
      mismatches-check_rows (check_row sha256_hex versioned p r) rows
      ∙ snoc_if (is_altered sha256_hex versioned r) p.content_mismatch_ids r.id (altered_ids rows)

  pub candidates-check_rows :
      (p : Progress) (rows : List Row)
      → (check_rows sha256_hex versioned p rows).link_candidates
        ≡ p.link_candidates ++ unlinked p.expected rows
  unfolding check_rows check_row unlinked
  candidates-check_rows p [] = rw append-nil
  candidates-check_rows p (r ∷ rows) =
      candidates-check_rows (check_row sha256_hex versioned p r) rows
      ∙ snoc_unless (is_linked sha256_hex versioned p.expected r) p.link_candidates _ _

  -- Every row has its content's hash and links to the row before it, the first to `expected`.
  abbrev pub Chained : String → List Row → Type 0
  Chained expected [] = Unit
  Chained expected (r ∷ rows) =
      (r.row_hash ≡ some (computed sha256_hex versioned r))
      × (r.previous_hash ≡ some expected)
      × Chained (computed sha256_hex versioned r) rows

  module _ (nonempty : (s : String) → str_eq (sha256_hex s) "" ≡ false) where
    intact_step :
        (expected : String) (r : Row) (rows : List Row)
        → altered_ids (r ∷ rows) ≡ []
        → unlinked expected (r ∷ rows) ≡ []
        → (r.row_hash ≡ some (computed sha256_hex versioned r))
          × (r.previous_hash ≡ some expected)
          × (altered_ids rows ≡ [])
          × (unlinked (computed sha256_hex versioned r) rows ≡ [])
    unfolding altered_ids unlinked is_linked is_altered next_expected computed
    intact_step expected r rows a u = elim (Option-cases r.row_hash) [
      | inl absent ↦ ground arith
      | inr (h, present) ↦
          let own : r.row_hash ≡ some (computed sha256_hex versioned r) =
            eq_hash-eq r.row_hash (computed sha256_hex versioned r) (ground arith) in
          let linked : r.previous_hash ≡ some expected =
            eq_hash-eq r.previous_hash expected (ground arith) in
          (own, linked, ground arith, ground (arith, nonempty (row_text versioned r)))
    ]

    chained_step :
        (expected : String) (r : Row)
        → r.row_hash ≡ some (computed sha256_hex versioned r)
        → r.previous_hash ≡ some expected
        → (is_altered sha256_hex versioned r ≡ false)
          × (is_linked sha256_hex versioned expected r ≡ true)
          × (next_expected sha256_hex versioned expected r ≡ computed sha256_hex versioned r)
    unfolding is_linked is_altered next_expected
    chained_step expected r own linked =
        let c : String = computed sha256_hex versioned r in
        let solid : str_eq c "" ≡ false = unfold computed in nonempty (row_text versioned r) in
        (ground (arith, eq_refl c), ground (arith, eq_refl expected), ground arith)

    -- A pass finds nothing exactly on chained rows.
    pub clean_iff :
        (expected : String) (rows : List Row)
        → ((altered_ids rows ≡ []) × (unlinked expected rows ≡ [])) ↔ Chained expected rows
    unfolding altered_ids unlinked
    clean_iff expected [] = (λ _. tt, λ _. (refl, refl))
    clean_iff expected (r ∷ rows) =
        let (found, chained) = clean_iff (computed sha256_hex versioned r) rows in
        (
          λ h.
              let (own, linked, a, u) = intact_step expected r rows h.0 h.1 in
              (own, linked, found (a, u)),
          λ h.
              let (fine, links, next) = chained_step expected r h.0 h.1 in
              let (a, u) = chained h.2 in (rw fine a, rw links (rw next u)),
        )
