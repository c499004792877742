-- ===== src/AuditChain/Examples.antt =====
-- Small logs, to which the results on app/services/audit_chain.py are applied.
use ai_agent_first_trust_por.Prelude.{
  ℕ, ◌<◌, String, Bool, true, false, none, some, List, [], ◌∷◌, ◌++◌, ◌≡◌, ◌⊎◌, ◌↔◌, refl, arith,
  all, select, not, length, str_eq, Bool-cases, inl, inr, if◌then◌else◌,
}
use ai_agent_first_trust_por.AuditLog.{
  Row, rows_after, first_row, row_text, computed, stored_hash, first_hashed,
}
use ai_agent_first_trust_por.AuditWitness.Heads.{
  HeadScan, Anchor, AnchorVerification, chain_id, is_current, foreign_chains_of, in_lineage,
  lineage_of, check_heads, place_chains, place_chain, resolve_foreign_chains, report, compare_heads,
  chains_of, last_entry,
}
use ai_agent_first_trust_por.AuditChain.Scan.{
  begin, is_linked, is_altered, next_expected, check_row, check_rows, chunk_limit, scan,
}
use ai_agent_first_trust_por.AuditChain.Slices.{Ascending, scan-eq-pass}
use ai_agent_first_trust_por.AuditChain.Links.{genesis_hash, classify_links}
use ai_agent_first_trust_por.AuditChain.Issues.{valid, witness_part, status_of}
use ai_agent_first_trust_por.AuditChain.Verdict.{
  start, find_chain_start, Report, verified_log, is_hex64, make_report, verify_chain,
}
use ai_agent_first_trust_por.AuditChain.Clean.{Chained}
use ai_agent_first_trust_por.AuditChain.Verified.{anchor_stands, verify_chain-valid_iff}
use ai_agent_first_trust_por.AuditChain.Findings.{joined, resumed-joined}
use ai_agent_first_trust_por.AuditChain.Tampering.{head_hash, removal_needs_cycle}
use ai_agent_first_trust_por.AuditChain.Witnessed.{head_stands, valid-heads}

abbrev ones : String
ones = "1111111111111111111111111111111111111111111111111111111111111111"

abbrev twos : String
twos = "2222222222222222222222222222222222222222222222222222222222222222"

-- a digest that tells the first row from the others
abbrev toy : String → String
toy s =
    if str_eq s "0000000000000000000000000000000000000000000000000000000000000000teams1INSERT"
    then ones
    else twos

toy-nonempty : (s : String) → str_eq (toy s) "" ≡ false
toy-nonempty s =
    elim (Bool-cases
      (str_eq s "0000000000000000000000000000000000000000000000000000000000000000teams1INSERT")) [
        | inl e ↦ rw e refl
        | inr e ↦ rw e refl
      ]

abbrev row : ℕ → String → String → String → Row
row i action previous own = record {
  id = i;
  table_name = "teams";
  record_id = "1";
  action = action;
  changed_by = none;
  changed_at = "";
  old_values = none;
  new_values = none;
  previous_hash = some previous;
  row_hash = some own;
  hash_version = none;
}

abbrev r1 : Row
r1 = row 1 "INSERT" genesis_hash ones

abbrev r2 : Row
r2 = row 2 "UPDATE" ones twos

abbrev r3 : Row
r3 = row 3 "UPDATE" twos twos

abbrev r4 : Row
r4 = row 4 "DELETE" twos twos

abbrev log : List Row
log = r1 ∷ r2 ∷ r3 ∷ r4 ∷ []

-- the third row is gone
abbrev cut : List Row
cut = r1 ∷ r2 ∷ r4 ∷ []

-- the third row's hash is not that of its content
abbrev altered : List Row
altered = r1 ∷ r2 ∷ row 3 "UPDATE" twos ones ∷ r4 ∷ []

log-start : find_chain_start log ≡ start 0 genesis_hash none 0
unfolding find_chain_start first_row first_hashed
log-start = refl

cut-start : find_chain_start cut ≡ start 0 genesis_hash none 0
unfolding find_chain_start first_row first_hashed
cut-start = refl

altered-start : find_chain_start altered ≡ start 0 genesis_hash none 0
unfolding find_chain_start first_row first_hashed
altered-start = refl

abbrev made : List Row → List Row → ℕ → String → Bool → Report
made rows part a e complete =
    make_report rows true none none none none 0 (check_rows toy true (begin a e) part, complete)

-- A full verification of a log.
abbrev full_report : List Row → Report
full_report rows = made rows rows 0 genesis_hash true

log-reported :
    verify_chain toy true true none 9 2 none none none log none ≡ verified_log (full_report log)
unfolding verify_chain find_chain_start first_row first_hashed scan chunk_limit rows_after
    check_rows check_row
log-reported = refl

cut-reported :
    verify_chain toy true true none 9 2 none none none cut none ≡ verified_log (full_report cut)
unfolding verify_chain find_chain_start first_row first_hashed scan chunk_limit rows_after
    check_rows check_row
cut-reported = refl

altered-reported :
    verify_chain toy true true none 9 2 none none none altered none
    ≡ verified_log (full_report altered)
unfolding verify_chain find_chain_start first_row first_hashed scan chunk_limit rows_after
    check_rows check_row
altered-reported = refl

-- What the scans and verifications of these logs give.
ascending : Ascending 0 log
ascending = (omega arith, (omega arith, (omega arith, (omega arith, tt))))

Ascending-altered : Ascending 0 altered
Ascending-altered = (omega arith, (omega arith, (omega arith, (omega arith, tt))))

Ascending-cut : Ascending 0 cut
Ascending-cut = (omega arith, (omega arith, (omega arith, tt)))

scan-eq-pass_example :
    scan toy true 9 2 none altered (begin 0 genesis_hash)
    ≡ some (check_rows toy true (begin 0 genesis_hash) (rows_after 0 altered), true)
scan-eq-pass_example =
    scan-eq-pass toy true 2 altered (omega arith) Ascending-altered 9 (begin 0 genesis_hash)
      (unfold rows_after in omega arith)

verify_chain-valid_iff_example :
    (r : Report) × (verify_chain toy true true none 9 2 none none none log none ≡ verified_log r)
    × (r.complete ≡ true)
    × ((r.status ≡ valid) ↔ (
        Chained toy true genesis_hash (rows_after 0 log)
        × (anchor_stands r.anchor_verification ≡ true)))
verify_chain-valid_iff_example =
    verify_chain-valid_iff toy true toy-nonempty none none 9 2 log 0 genesis_hash none 0 log-start
      ascending (omega arith) (omega arith)

-- The altered log, in two parts.
abbrev first_part : Report
first_part = made altered (r1 ∷ r2 ∷ row 3 "UPDATE" twos ones ∷ []) 0 genesis_hash false

abbrev second_part : Report
second_part = made altered (r4 ∷ []) 3 ones true

first-reported :
    verify_chain toy true true none 9 2 (some 3) none none altered none ≡ verified_log first_part
unfolding verify_chain find_chain_start first_row first_hashed scan chunk_limit rows_after
    check_rows check_row
first-reported = refl

second-reported :
    verify_chain toy true true none 9 2 none none none altered
      (some (record { after_id = 3; expected = some ones }))
    ≡ verified_log second_part
unfolding verify_chain find_chain_start first_row first_hashed scan chunk_limit rows_after
    check_rows check_row is_hex64
second-reported = refl

first-next : first_part.next_after_id ≡ some 3
unfolding make_report check_rows check_row
first-next = refl

first-expected : first_part.expected_previous_hash ≡ some ones
unfolding make_report check_rows check_row next_expected
first-expected = refl

ones-is_hex64 : is_hex64 ones ≡ true
unfolding is_hex64
ones-is_hex64 = refl

resumed-joined_example :
    (full_report altered).findings ≡ joined first_part.findings second_part.findings
resumed-joined_example =
    resumed-joined toy true none none none 9 2 (omega arith) altered Ascending-altered (omega arith)
      3 0 genesis_hash none 0 3 ones (full_report altered) first_part second_part altered-start
      altered-reported first-reported first-next first-expected ones-is_hex64 second-reported

log-valid : (full_report log).status ≡ valid
unfolding make_report check_rows check_row is_linked is_altered next_expected classify_links
    status_of witness_part computed row_text
log-valid = refl

cut-valid : (full_report cut).status ≡ valid
unfolding make_report check_rows check_row is_linked is_altered next_expected classify_links
    status_of witness_part computed row_text
cut-valid = refl

log-left : rows_after 0 log ≡ (r1 ∷ r2 ∷ []) ++ ((r3 ∷ []) ++ r4 ∷ [])
unfolding rows_after
log-left = refl

cut-left : rows_after 0 cut ≡ (r1 ∷ r2 ∷ []) ++ r4 ∷ []
unfolding rows_after
cut-left = refl

removal_needs_cycle_example :
    head_hash toy true (head_hash toy true genesis_hash (r1 ∷ r2 ∷ [])) (r3 ∷ [])
    ≡ head_hash toy true genesis_hash (r1 ∷ r2 ∷ [])
removal_needs_cycle_example =
    removal_needs_cycle toy true toy-nonempty none none 9 2 (omega arith) 0 genesis_hash none log
      cut 0 0 (full_report log) (full_report cut) (r1 ∷ r2 ∷ []) (r3 ∷ []) r4 [] log-start cut-start
      ascending Ascending-cut (omega arith) (omega arith) log-reported cut-reported log-valid
      cut-valid log-left cut-left

-- A log that an archival began anew, with a head published before it and one after it.
abbrev anchored_log : List Row
anchored_log = row 10 "ANCHOR" ones twos ∷ row 11 "UPDATE" twos twos ∷ []

abbrev published : HeadScan
published = record {
  valid =
      record { key = "k9"; chain_id = "00000000"; id = 9; row_hash = ones; published_at = none }
      ∷ record {
        key = "k11";
        chain_id = "2222222222222222";
        id = 11;
        row_hash = twos;
        published_at = none;
      }
      ∷ [];
  invalid = [];
}

abbrev manifest_verifier : Anchor → AnchorVerification
manifest_verifier a = record {
  status = "verified";
  issues = [];
  lineage = record { chain_id = "00000000"; final_row_id = 9; final_row_hash = ones } ∷ [];
}

abbrev anchored_report : Report
anchored_report =
    make_report anchored_log true none (some published) (some manifest_verifier)
      (some (record { id = 10; archived_chain_head = some ones })) 0
      (check_rows toy true (begin 9 ones) anchored_log, true)

anchored-reported :
    verify_chain toy true true none 9 2 none
      (some published)
      (some manifest_verifier)
      anchored_log
      none
    ≡ verified_log anchored_report
unfolding verify_chain find_chain_start first_row first_hashed scan chunk_limit rows_after
    check_rows check_row
anchored-reported = refl

anchored-valid : anchored_report.status ≡ valid
unfolding make_report check_rows check_row is_linked is_altered next_expected classify_links
    status_of witness_part computed row_text report resolve_foreign_chains place_chains check_heads
    foreign_chains_of chains_of chain_id first_hashed place_chain in_lineage last_entry
    compare_heads stored_hash
anchored-valid = refl

valid-heads_example :
    (published.invalid ≡ [])
    × (all (head_stands anchored_log) (select (is_current (chain_id anchored_log)) published.valid)
        ≡ true)
    × (all
          (λ c. in_lineage c (lineage_of anchored_report.anchor_verification))
          (foreign_chains_of
            (select (λ x. not (is_current (chain_id anchored_log) x)) published.valid))
        ≡ true)
    × ((published.valid ≡ [])
        ⊎ (0 < length (select (is_current (chain_id anchored_log)) published.valid)))
valid-heads_example =
    valid-heads toy true true none 9 2 none (some published) (some manifest_verifier) anchored_log
      none published anchored_report refl anchored-reported anchored-valid
