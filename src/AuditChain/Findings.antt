-- ===== src/AuditChain/Findings.antt =====
-- What a report of `verify_chain` in app/services/audit_chain.py lists, for a full verification and
-- for one that goes on where a bounded one stopped.
use ai_agent_first_trust_por.Prelude.{
  ℕ, ◌<◌, String, Bool, true, Option, none, some, List, [], ◌∷◌, ◌++◌, ◌≡◌, ◌∙◌, sym, ap, refl,
  arith, length, take, drop, take-append-drop, leb,
}
use mathlib.Core.Path.{ap₂}
use native.Mathlib.Nat.{sub-zero}
use ai_agent_first_trust_por.AuditLog.{Row, rows_after, first_serialized_id}
use ai_agent_first_trust_por.AuditWitness.Heads.{Anchor, AnchorVerification, HeadScan}
use ai_agent_first_trust_por.AuditChain.Scan.{Progress, begin, check_row, check_rows}
use ai_agent_first_trust_por.AuditChain.Slices.{
  Ascending, scan-eq-pass, scan-eq-bounded_pass, next_chunk,
}
use ai_agent_first_trust_por.AuditChain.Links.{chain_roots, classify_links}
use ai_agent_first_trust_por.AuditChain.Issues.{Findings}
use ai_agent_first_trust_por.AuditChain.Verdict.{
  start, find_chain_start, Report, Outcome, Resume, anchor_of_start, verified_log, make_report,
  is_hex64, verify_chain,
}
use ai_agent_first_trust_por.AuditChain.Clean.{
  altered_ids, unlinked, mismatches-check_rows, candidates-check_rows,
}
use ai_agent_first_trust_por.AuditChain.Verified.{length-rows_after}

-- Findings of two stretches of rows, one after the other.
abbrev pub joined : Findings → Findings → Findings
joined f g = record {
  content_mismatches = f.content_mismatches ++ g.content_mismatches;
  forks = f.forks ++ g.forks;
  true_breaks = f.true_breaks ++ g.true_breaks;
}

classify-append :
    (rows : List Row) (cs ds : List (ℕ × Option String)) (roots : List String) (from : Option ℕ)
    → ((classify_links rows (cs ++ ds) roots from).0
        ≡ (classify_links rows cs roots from).0 ++ (classify_links rows ds roots from).0)
      × ((classify_links rows (cs ++ ds) roots from).1
          ≡ (classify_links rows cs roots from).1 ++ (classify_links rows ds roots from).1)
unfolding classify_links
classify-append rows [] ds roots from = (refl, refl)
classify-append rows (c ∷ cs) ds roots from = ground (arith, classify-append rows cs ds roots from)

module _ (sha256_hex : String → String) (versioned : Bool) where
  altered-append :
      (xs ys : List Row)
      → altered_ids sha256_hex versioned (xs ++ ys)
        ≡ altered_ids sha256_hex versioned xs ++ altered_ids sha256_hex versioned ys
  unfolding altered_ids
  altered-append [] ys = refl
  altered-append (r ∷ xs) ys = ground (arith, altered-append xs ys)

  unlinked-append :
      (p : Progress) (xs ys : List Row)
      → unlinked sha256_hex versioned p.expected (xs ++ ys)
        ≡ unlinked sha256_hex versioned p.expected xs
          ++ unlinked sha256_hex versioned (check_rows sha256_hex versioned p xs).expected ys
  unfolding unlinked check_rows check_row
  unlinked-append p [] ys = refl
  unlinked-append p (r ∷ xs) ys =
      ground (arith, unlinked-append (check_row sha256_hex versioned p r) xs ys)

  -- the findings that a report makes of a stretch of rows
  abbrev pub findings_of : List Row → String → List Row → Findings
  findings_of rows e left =
      let classified =
        classify_links rows (unlinked sha256_hex versioned e left) (chain_roots rows)
          (first_serialized_id versioned rows) in
      record {
        content_mismatches = altered_ids sha256_hex versioned left;
        forks = classified.0;
        true_breaks = classified.1;
      }

  findings-append :
      (rows : List Row) (p : Progress) (xs ys : List Row)
      → findings_of rows p.expected (xs ++ ys)
        ≡ joined
            (findings_of rows p.expected xs)
            (findings_of rows (check_rows sha256_hex versioned p xs).expected ys)
  findings-append rows p xs ys = ground (
    arith,
    altered-append xs ys,
    unlinked-append p xs ys,
    classify-append rows (unlinked sha256_hex versioned p.expected xs)
        (unlinked sha256_hex versioned (check_rows sha256_hex versioned p xs).expected ys)
        (chain_roots rows) (first_serialized_id versioned rows),
  )

  report-findings :
      (estimate : Option ℕ) (heads : Option HeadScan)
      (verifier : Option (Anchor → AnchorVerification)) (rows left : List Row) (a : ℕ) (e : String)
      (anchor : Option Anchor) (unhashed : ℕ) (complete : Bool)
      → (make_report rows versioned estimate heads verifier anchor unhashed
          (check_rows sha256_hex versioned (begin a e) left, complete)).findings
        ≡ findings_of rows e left
  unfolding make_report
  report-findings estimate heads verifier rows left a e anchor unhashed complete = rw (
    mismatches-check_rows sha256_hex versioned (begin a e) left,
    candidates-check_rows sha256_hex versioned (begin a e) left,
  )

module _ (sha256_hex : String → String) (versioned : Bool) (estimate : Option ℕ)
    (verifier : Option (Anchor → AnchorVerification)) (heads : Option HeadScan)
    (fuel chunk_size : ℕ) (chunked : 0 < chunk_size) (rows : List Row)
    (ascending : Ascending 0 rows) (enough : length rows < fuel) where
  abbrev verify : Option ℕ → Option Resume → Outcome
  verify max_rows resume =
      verify_chain sha256_hex true versioned estimate fuel chunk_size max_rows heads verifier rows
        resume

  -- what a full verification, a bounded one and a resumed one report
  full-findings :
      (a : ℕ) (e : String) (anchor : Option Anchor) (unhashed : ℕ) (r : Report)
      → find_chain_start rows ≡ start a e anchor unhashed
      → verify none none ≡ verified_log r
      → r.findings ≡ findings_of sha256_hex versioned rows e (rows_after a rows)
  full-findings a e anchor unhashed r begins reported =
      let done : Progress × Bool =
        (check_rows sha256_hex versioned (begin a e) (rows_after a rows), true) in
      let made : verify none none
          ≡ verified_log (make_report rows versioned estimate heads verifier anchor unhashed done) =
        unfold verify_chain in
        rw begins (
          rw (
            scan-eq-pass sha256_hex versioned chunk_size rows chunked ascending fuel (begin a e)
              (omega (arith, length-rows_after a rows)))) in
      let same : r ≡ make_report rows versioned estimate heads verifier anchor unhashed done =
        cc (made, reported) in
      ap (λ (x : Report). x.findings) same
      ∙ report-findings sha256_hex versioned estimate heads verifier rows (rows_after a rows) a e
          anchor unhashed true

  bounded-findings :
      (m a : ℕ) (e : String) (anchor : Option Anchor) (unhashed b : ℕ) (x : String) (r : Report)
      → find_chain_start rows ≡ start a e anchor unhashed
      → verify (some m) none ≡ verified_log r
      → r.next_after_id ≡ some b
      → r.expected_previous_hash ≡ some x
      → let p : Progress =
          check_rows sha256_hex versioned (begin a e) (take m (rows_after a rows)) in
        (r.findings ≡ findings_of sha256_hex versioned rows e (take m (rows_after a rows)))
        × (p.last_id ≡ b)
        × (p.expected ≡ x)
  bounded-findings m a e anchor unhashed b x r begins reported next_id next_hash =
      let left : List Row = rows_after a rows in
      let p : Progress = check_rows sha256_hex versioned (begin a e) (take m left) in
      let done : Progress × Bool = (p, leb (length left) m) in
      let made : verify (some m) none
          ≡ verified_log (make_report rows versioned estimate heads verifier anchor unhashed done) =
        unfold verify_chain in
        rw begins (
          rw (
            scan-eq-bounded_pass sha256_hex versioned chunk_size m rows chunked ascending fuel
                (begin a e) (omega (arith, length-rows_after a rows)),
            sub-zero,
          )) in
      let same : r ≡ make_report rows versioned estimate heads verifier anchor unhashed done =
        cc (made, reported) in
      let id_is : (make_report rows versioned estimate heads verifier anchor unhashed
            done).next_after_id
          ≡ some b =
        ap (λ (y : Report). y.next_after_id) (sym same) ∙ next_id in
      let hash_is : (make_report rows versioned estimate heads verifier anchor unhashed
            done).expected_previous_hash
          ≡ some x =
        ap (λ (y : Report). y.expected_previous_hash) (sym same) ∙ next_hash in
      (
        ap (λ (y : Report). y.findings) same
            ∙ report-findings sha256_hex versioned estimate heads verifier rows (take m left) a e
                anchor unhashed (leb (length left) m),
        unfold make_report in ground arith,
        unfold make_report in ground arith,
      )

  resumed-findings :
      (b : ℕ) (x : String) (r : Report)
      → is_hex64 x ≡ true
      → verify none (some (record { after_id = b; expected = some x })) ≡ verified_log r
      → r.findings ≡ findings_of sha256_hex versioned rows x (rows_after b rows)
  resumed-findings b x r hex reported =
      let anchor : Option Anchor = anchor_of_start (find_chain_start rows) in
      let done : Progress × Bool =
        (check_rows sha256_hex versioned (begin b x) (rows_after b rows), true) in
      let made : verify none (some (record { after_id = b; expected = some x }))
          ≡ verified_log (make_report rows versioned estimate heads verifier anchor 0 done) =
        unfold verify_chain in
        rw hex (
          rw (
            scan-eq-pass sha256_hex versioned chunk_size rows chunked ascending fuel (begin b x)
              (omega (arith, length-rows_after b rows)))) in
      let same : r ≡ make_report rows versioned estimate heads verifier anchor 0 done =
        cc (made, reported) in
      ap (λ (y : Report). y.findings) same
      ∙ report-findings sha256_hex versioned estimate heads verifier rows (rows_after b rows) b x
          anchor 0 true

  -- A verification bounded by `max_rows` that leaves off before the end, and one resumed from the id
  -- and the hash that it names, report together what one full verification reports: its altered
  -- rows, its forks and its true breaks, in its order. The ids ascend, there is more fuel than rows,
  -- the chunk size is positive, and the hash to resume with has the form of one.
  pub resumed-joined :
      (m a : ℕ) (e : String) (anchor : Option Anchor) (unhashed b : ℕ) (x : String)
      (full first rest : Report)
      → find_chain_start rows ≡ start a e anchor unhashed
      → verify none none ≡ verified_log full
      → verify (some m) none ≡ verified_log first
      → first.next_after_id ≡ some b
      → first.expected_previous_hash ≡ some x
      → is_hex64 x ≡ true
      → verify none (some (record { after_id = b; expected = some x })) ≡ verified_log rest
      → full.findings ≡ joined first.findings rest.findings
  resumed-joined m a e anchor unhashed b x full first rest begins whole part next_id next_hash hex
        more =
      let left : List Row = rows_after a rows in
      let p : Progress = check_rows sha256_hex versioned (begin a e) (take m left) in
      let (found, last_is, hash_is) =
        bounded-findings m a e anchor unhashed b x first begins part next_id next_hash in
      let later : rows_after b rows ≡ drop m left =
        ap (λ i. rows_after i rows) (sym last_is)
        ∙ next_chunk sha256_hex versioned (begin a e) m rows ascending in
      let resumed : rest.findings ≡ findings_of sha256_hex versioned rows p.expected (drop m left) =
        resumed-findings b x rest hex more
        ∙ ap (findings_of sha256_hex versioned rows x) later
        ∙ ap (λ h. findings_of sha256_hex versioned rows h (drop m left)) (sym hash_is) in
      full-findings a e anchor unhashed full begins whole
      ∙ ap (findings_of sha256_hex versioned rows e) (sym (take-append-drop m left))
      ∙ findings-append sha256_hex versioned rows (begin a e) (take m left) (drop m left)
      ∙ ap₂ joined (sym found) (sym resumed)
