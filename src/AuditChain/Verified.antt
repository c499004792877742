-- ===== src/AuditChain/Verified.antt =====
-- What the statuses of `verify_chain` in app/services/audit_chain.py mean.
use ai_agent_first_trust_por.Prelude.{
  ℕ, ◌+◌, eq_iff, ◌≤◌, ◌<◌, String, Bool, true, false, Option, none, some, List, [], ◌∷◌, ◌≡◌, ◌↔◌,
  ◌∙◌, sym, refl, arith, length, str_eq,
}
use ai_agent_first_trust_por.AuditLog.{Row, rows_after, first_serialized_id}
use ai_agent_first_trust_por.AuditWitness.Heads.{Anchor, AnchorVerification}
use ai_agent_first_trust_por.AuditChain.Scan.{Progress, begin, check_rows}
use ai_agent_first_trust_por.AuditChain.Slices.{Ascending, scan-eq-pass}
use ai_agent_first_trust_por.AuditChain.Links.{chain_roots, classify_links}
use ai_agent_first_trust_por.AuditChain.Issues.{Findings, valid, witness_part, status_of}
use ai_agent_first_trust_por.AuditChain.Verdict.{
  start, find_chain_start, Report, verified_log, verify_anchor, make_report, verify_chain,
}
use ai_agent_first_trust_por.AuditChain.Clean.{
  altered_ids, unlinked, mismatches-check_rows, candidates-check_rows, Chained, clean_iff,
}

-- Every mislinked row is a fork or a true break, and no other row is.
classify-length :
    (rows : List Row) (cs : List (ℕ × Option String)) (roots : List String) (from : Option ℕ)
    → length (classify_links rows cs roots from).0 + length (classify_links rows cs roots from).1
      ≡ length cs
unfolding classify_links
classify-length rows [] roots from = refl
classify-length rows (c ∷ cs) roots from = ground (arith, classify-length rows cs roots from)

classify-none :
    (rows : List Row) (cs : List (ℕ × Option String)) (roots : List String) (from : Option ℕ)
    → (((classify_links rows cs roots from).0 ≡ []) × ((classify_links rows cs roots from).1 ≡ []))
      ↔ (cs ≡ [])
unfolding classify_links
classify-none rows [] roots from = (λ _. refl, λ _. (refl, refl))
classify-none rows (c ∷ cs) roots from = ground arith

-- no anchor, or one that the verifier found to be what it says
abbrev pub anchor_stands : Option AnchorVerification → Bool
anchor_stands none = true
anchor_stands (some x) = str_eq x.status "verified"

not_failed : (s : String) → str_eq s "verified" ≡ true → str_eq s "failed" ≡ false
not_failed s h = rw ((eq_iff s "verified").0 h) refl

-- the status without a witness
status-valid :
    (f : Findings) (v : Option AnchorVerification)
    → (status_of f v (witness_part none) ≡ valid) ↔ (
        (f.content_mismatches ≡ [])
        × (f.true_breaks ≡ [])
        × (f.forks ≡ [])
        × (anchor_stands v ≡ true))
unfolding status_of witness_part
status-valid f none = ground arith
status-valid f (some x) = ground (arith, not_failed x.status)

pub length-rows_after : (a : ℕ) (rows : List Row) → length (rows_after a rows) ≤ length rows
unfolding rows_after
length-rows_after a [] = omega arith
length-rows_after a (r ∷ rows) = ground (arith, length-rows_after a rows)

-- The status of the report on a pass over `left`.
module _ (sha256_hex : String → String) (versioned : Bool)
    (nonempty : (s : String) → str_eq (sha256_hex s) "" ≡ false) (estimate : Option ℕ)
    (verifier : Option (Anchor → AnchorVerification)) where
  report-valid :
      (rows left : List Row) (a : ℕ) (e : String) (anchor : Option Anchor) (unhashed : ℕ)
      → let r =
          make_report rows versioned estimate none verifier anchor unhashed
            (check_rows sha256_hex versioned (begin a e) left, true) in
        (r.status ≡ valid)
        ↔ (Chained sha256_hex versioned e left × (anchor_stands r.anchor_verification ≡ true))
  unfolding make_report
  report-valid rows left a e anchor unhashed =
      let p : Progress = check_rows sha256_hex versioned (begin a e) left in
      let altered : p.content_mismatch_ids ≡ altered_ids sha256_hex versioned left =
        mismatches-check_rows sha256_hex versioned (begin a e) left in
      let mislinked : p.link_candidates ≡ unlinked sha256_hex versioned e left =
        candidates-check_rows sha256_hex versioned (begin a e) left in
      let cs : List (ℕ × Option String) = p.link_candidates in
      let classified : (List ℕ × List ℕ) =
        classify_links rows cs (chain_roots rows) (first_serialized_id versioned rows) in
      let f : Findings = record {
        content_mismatches = p.content_mismatch_ids;
        forks = classified.0;
        true_breaks = classified.1;
      } in
      let (unclassified, classifies_none) =
        classify-none rows cs (chain_roots rows) (first_serialized_id versioned rows) in
      let (chained, clean) = clean_iff sha256_hex versioned nonempty e left in
      (
        λ h.
            let (m, b, k, stands) = (status-valid f (verify_anchor verifier anchor)).0 h in
            (chained (sym altered ∙ m, sym mislinked ∙ unclassified (k, b)), stands),
        λ h.
            let (a', u) = clean h.0 in
            let (k, b) = classifies_none (mislinked ∙ u) in
            (status-valid f (verify_anchor verifier anchor)).1 (altered ∙ a', b, k, h.1),
      )

  -- Without a witness, on a log whose rows ascend by id and with a digest that is never empty, a
  -- verification from the chain's start ends with more fuel than rows and any positive chunk size.
  -- It is complete, and its status is `valid`
  -- exactly when every row from the start on has the hash of its content and links to the row
  -- before it, and the anchor, if the log begins with one, was verified.
  pub verify_chain-valid_iff :
      (fuel chunk_size : ℕ) (rows : List Row) (a : ℕ) (e : String) (anchor : Option Anchor)
      (unhashed : ℕ)
      → find_chain_start rows ≡ start a e anchor unhashed
      → Ascending 0 rows
      → 0 < chunk_size
      → length rows < fuel
      → (r : Report) × (verify_chain sha256_hex true versioned estimate fuel chunk_size none none
            verifier rows none
          ≡ verified_log r)
        × (r.complete ≡ true)
        × ((r.status ≡ valid) ↔ (
            Chained sha256_hex versioned e (rows_after a rows)
            × (anchor_stands r.anchor_verification ≡ true)))
  unfolding verify_chain
  verify_chain-valid_iff fuel chunk_size rows a e anchor unhashed begins ascending chunked enough =
      let done : Progress × Bool =
        (check_rows sha256_hex versioned (begin a e) (rows_after a rows), true) in
      (
        make_report rows versioned estimate none verifier anchor unhashed done,
        rw begins (
            rw (
              scan-eq-pass sha256_hex versioned chunk_size rows chunked ascending fuel (begin a e)
                (omega (arith, length-rows_after a rows)))),
        unfold make_report in refl,
        report-valid rows (rows_after a rows) a e anchor unhashed,
      )
