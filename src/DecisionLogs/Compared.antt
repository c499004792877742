-- ===== src/DecisionLogs/Compared.antt =====
-- What the comparison of stored entries with a new export finds:
-- `_compare_with_stored` of app/services/evidence_import_decision_logs.py.
use native.Mathlib.Nat.{add-zero, zero-add}
use ai_agent_first_trust_por.Prelude.{
  ℕ, suc, ◌+◌, ◌≤◌, String, Option, none, some, List, [], ◌∷◌, ◌++◌, ◌≡◌, refl, sym, ◌∙◌, arith,
  append_assoc, append-nil, length, take, Bool-cases, inl, inr, if◌then◌else◌,
}
use ai_agent_first_trust_por.DecisionLogs.Entries.{
  Entry, Progress, get_elem?, same_entry, bytes_of, entries_digest, compare_row, compare_rows,
  compare_with_stored, prefix_or, settle, meets, counted,
}

abbrev pub later : Option ℕ → Option ℕ
later none = none
later (some d) = some (suc d)

abbrev shift : ℕ → Option ℕ → Option ℕ
shift n none = none
shift n (some d) = some (n + d)

shift-suc : (n : ℕ) (o : Option ℕ) → shift (suc n) o ≡ shift n (later o)
shift-suc n none = refl
shift-suc n (some d) = ground arith

shift-zero : (o : Option ℕ) → shift 0 o ≡ o
shift-zero none = refl
shift-zero (some d) = ground arith

module _ (reencode : String → Option String) where
  -- The first position, below both lengths, at which the entries differ.
  unfoldable pub first_difference : List Entry → List Entry → Option ℕ
  first_difference [] es = none
  first_difference (r ∷ rs) [] = none
  first_difference (r ∷ rs) (e ∷ es) =
      if same_entry reencode r e then later (first_difference rs es) else some 0

  -- How many leading stored entries the export repeats.
  unfoldable pub agreed : List Entry → List Entry → ℕ
  agreed [] es = 0
  agreed (r ∷ rs) [] = 0
  agreed (r ∷ rs) (e ∷ es) =
      let rest = agreed rs es in if same_entry reencode r e then suc rest else 0

  pub agreed-le : (rs es : List Entry) → agreed rs es ≤ length rs
  unfolding agreed
  agreed-le [] es = omega arith
  agreed-le (r ∷ rs) [] = omega arith
  agreed-le (r ∷ rs) (e ∷ es) = ground (arith, agreed-le rs es)

module _ (canonical : Entry → List ℕ) where
  pub bytes_of-append :
      (xs ys : List Entry)
      → bytes_of canonical (xs ++ ys) ≡ bytes_of canonical xs ++ bytes_of canonical ys
  unfolding bytes_of
  bytes_of-append [] ys = refl
  bytes_of-append (x ∷ xs) ys = rw (bytes_of-append xs ys) (sym (append_assoc (canonical x) _ _))

module _ (canonical : Entry → List ℕ) (reencode : String → Option String) where
  -- Once a prefix is set, a row is only counted and taken.
  compare_rows-settled :
      (entries rows : List Entry) (n : ℕ) (d : Option ℕ) (b taken : List ℕ)
      → compare_rows canonical reencode entries
          (record { count = n; difference = d; prefix = some b; taken = taken })
          rows
        ≡ record {
          count = n + length rows;
          difference = d;
          prefix = some b;
          taken = taken ++ bytes_of canonical rows;
        }
  unfolding compare_rows compare_row settle bytes_of
  compare_rows-settled entries [] n d b taken = rw append-nil (ground arith)
  compare_rows-settled entries (r ∷ rows) n d b taken =
      compare_rows-settled entries rows (suc n) d b (taken ++ canonical r)
      ∙ rw append_assoc (ground arith)

  -- What the loop has found when it ends, from a state in which nothing differed.
  record Found (p : Progress) (n : ℕ) (b : List ℕ) (rows rest : List Entry) : Type 0 where
    counts : p.count ≡ n + length rows
    differs : p.difference ≡ shift n (first_difference reencode rows rest)
    keeps :
        prefix_or p.taken p.prefix ≡ b ++ bytes_of canonical (take (agreed reencode rows rest) rows)
    takes : p.taken ≡ b ++ bytes_of canonical rows

  compare_row-at :
      (entries : List Entry) (r : Entry) (n : ℕ) (b : List ℕ) (o : Option Entry)
      → get_elem? entries n ≡ o
      → compare_row canonical reencode entries
          (record { count = n; difference = none; prefix = none; taken = b })
          r
        ≡ counted canonical reencode
            (meets canonical reencode
              (record { count = n; difference = none; prefix = none; taken = b })
              r
              o)
            r
  unfolding compare_row settle
  compare_row-at entries r n b o q = rw q

  compare_rows-Found :
      (entries rows rest : List Entry) (n : ℕ) (b : List ℕ)
      → ((i : ℕ) → get_elem? entries (n + i) ≡ get_elem? rest i)
      → Found
          (compare_rows canonical reencode entries
            (record { count = n; difference = none; prefix = none; taken = b })
            rows)
          n
          b
          rows
          rest
  unfolding compare_rows bytes_of first_difference agreed meets
  compare_rows-Found entries [] rest n b at = record {
    counts = omega arith;
    differs = refl;
    keeps = sym (append-nil b);
    takes = sym (append-nil b);
  }
  compare_rows-Found entries (r ∷ rows) [] n b at =
      let q : get_elem? entries n ≡ none = rw (← add-zero n) (at 0) in
      rw (compare_row-at entries r n b none q) (
        rw (compare_rows-settled entries rows (suc n) none b (b ++ canonical r)) (record {
          counts = omega arith;
          differs = refl;
          keeps = sym (append-nil b);
          takes = append_assoc b (canonical r) _;
        }))
  compare_rows-Found entries (r ∷ rows) (e ∷ rest) n b at =
      let q : get_elem? entries n ≡ some e = rw (← add-zero n) (at 0) in
      rw (compare_row-at entries r n b (some e) q) (elim (Bool-cases (same_entry reencode r e)) [
        | inl same ↦
            let f =
              compare_rows-Found entries rows rest (suc n) (b ++ canonical r)
                (λ i. let m : n + suc i ≡ suc n + i = omega arith in rw (← m) (at (suc i))) in
            rw same (record {
              counts = omega (arith, f.counts);
              differs = rw same (f.differs ∙ shift-suc n _);
              keeps = rw same (f.keeps ∙ append_assoc b (canonical r) _);
              takes = f.takes ∙ append_assoc b (canonical r) _;
            })
        | inr other ↦ rw other (
            rw (compare_rows-settled entries rows (suc n) (some n) b (b ++ canonical r)) (record {
              counts = omega arith;
              differs = rw other (ground arith);
              keeps = rw other (sym (append-nil b));
              takes = append_assoc b (canonical r) _;
            }))
      ])

module _ (sha256_hex : List ℕ → String) (canonical : Entry → List ℕ)
    (reencode : String → Option String) where
  -- The comparison counts the stored entries, finds the first position below both lengths at which
  -- the entries differ, keeps the bytes of the leading entries that agree, and has the digest of
  -- all stored entries.
  pub compare_with_stored-eq :
      (rows entries : List Entry)
      → compare_with_stored sha256_hex canonical reencode rows entries ≡ record {
        stored = length rows;
        difference = first_difference reencode rows entries;
        prefix = bytes_of canonical (take (agreed reencode rows entries) rows);
        stored_sha256 = entries_digest sha256_hex canonical rows;
      }
  unfolding compare_with_stored entries_digest
  compare_with_stored-eq rows entries =
      let f = compare_rows-Found canonical reencode entries rows entries 0 [] (λ i. rw zero-add) in
      ground (arith, shift-zero (first_difference reencode rows entries))
