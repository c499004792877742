-- ===== src/AuditChain/Verdict.antt =====
-- `find_chain_start` and `verify_chain` of app/services/audit_chain.py. The planner's estimate of the
-- table's size and the verifier of an anchor, which reads the archive's manifest, are arguments. Of
-- an anchor's details the report needs its id and its archived head.
use ai_agent_first_trust_por.Prelude.{
  ℕ, ◌+◌, ◌-◌, String, Bool, true, false, ◌&&◌, ◌||◌, Option, none, some, List, [], ◌∷◌, ltb, leb,
  ◌==◌, str_eq, length, select, if◌then◌else◌,
}
use ai_agent_first_trust_por.AuditLog.{
  Row, first_row, first_hashed, first_serialized_id, estimated_total,
}
use ai_agent_first_trust_por.AuditWitness.Heads.{
  Anchor, AnchorVerification, HeadScan, WitnessReport, status_is, check_heads,
  resolve_foreign_chains, report,
}
use ai_agent_first_trust_por.AuditChain.Scan.{Progress, begin, scan}
use ai_agent_first_trust_por.AuditChain.Links.{genesis_hash, chain_roots, classify_links}
use ai_agent_first_trust_por.AuditChain.Issues.{
  Findings, FirstBreak, Status, issues_of, placed, unplaced, witness_part, status_of,
}
use ai_agent_first_trust_por.Auth.Header.{codes}

pub data ChainStart : Type 0 where
  -- no rows; rows, but none with a hash; the first row to verify and what precedes it
  empty_log : ChainStart
  unhashed_log : ChainStart
  start : (after_id : ℕ) (expected : String) (anchor : Option Anchor) (unhashed : ℕ) → ChainStart

text_or_empty : Option String → String
text_or_empty none = ""
text_or_empty (some h) = h

hashed_start : List Row → Option Row → ChainStart
hashed_start rows none = unhashed_log
hashed_start rows (some f) =
    start (f.id - 1) genesis_hash none (length (select (λ r. ltb r.id f.id) rows))

start_at : List Row → Option Row → ChainStart
start_at rows none = empty_log
start_at rows (some r) =
    if str_eq r.action "ANCHOR"
    then start (r.id - 1) (text_or_empty r.previous_hash)
        (some (record { id = r.id; archived_chain_head = r.previous_hash })) 0
    else hashed_start rows (first_hashed rows)

unfoldable pub find_chain_start : List Row → ChainStart
unfolding start_at hashed_start text_or_empty
find_chain_start rows = start_at rows (first_row rows)

pub record Report : Type 0 where
  pub status : Status
  pub total_entries : ℕ
  pub unhashed_entries : ℕ
  pub verified : ℕ
  pub findings : Findings
  pub breaks : ℕ
  pub witness : Option WitnessReport
  pub anchor_verification : Option AnchorVerification
  pub anchor : Option Anchor
  pub first_break : Option FirstBreak
  pub chain_head : Option String
  pub complete : Bool
  pub next_after_id : Option ℕ
  pub expected_previous_hash : Option String

pub data Outcome : Type 0 where
  unsupported empty out_of_fuel bad_previous_hash : Outcome
  no_hashes : ℕ → Outcome
  verified_log : Report → Outcome

abbrev pub bit : Bool → ℕ
bit true = 1
bit false = 0

-- `HEX64.match`: `$` also matches before a final newline
is_hex : ℕ → Bool
is_hex c = (leb b'0' c && leb c b'9') || (leb b'a' c && leb c b'f')

hex_line : ℕ → List ℕ → Bool
hex_line n [] = n == 0
hex_line n (c ∷ s) =
    let rest = hex_line (n - 1) s in
    if n == 0 then c == 10 && (elim s [ [] ↦ true | _ ∷ _ ↦ false ]) else is_hex c && rest

unfoldable pub is_hex64 : String → Bool
unfolding hex_line is_hex
is_hex64 s = hex_line 64 (codes s)

-- the anchor's standing, from the verifier if there is one
unfoldable pub verify_anchor :
    Option (Anchor → AnchorVerification) → Option Anchor → Option AnchorVerification
verify_anchor verifier none = none
verify_anchor none (some a) = some (record { status = "unverified"; issues = []; lineage = [] })
verify_anchor (some verifier) (some a) = some (verifier a)

unfoldable pub witness_report :
    List Row → Option HeadScan → Option Anchor → Option AnchorVerification → Option WitnessReport
witness_report rows none a v = none
witness_report rows (some heads) a v =
    some (report (resolve_foreign_chains (check_heads rows heads) a v))

-- the report on a finished scan
unfoldable pub make_report :
    List Row
    → Bool
    → Option ℕ
    → Option HeadScan
    → Option (Anchor → AnchorVerification)
    → Option Anchor
    → ℕ
    → Progress × Bool
    → Report
unfolding verify_anchor witness_report
make_report rows versioned estimate heads verifier anchor unhashed (p, complete) =
    let (forks, breaks) =
      classify_links rows p.link_candidates (chain_roots rows)
        (first_serialized_id versioned rows) in
    let f : Findings = record {
      content_mismatches = p.content_mismatch_ids;
      forks = forks;
      true_breaks = breaks;
    } in
    let v = verify_anchor verifier anchor in
    let w = witness_report rows heads anchor v in
    let part = witness_part w in
    record {
      status = status_of f v part;
      total_entries = estimated_total estimate rows;
      unhashed_entries = unhashed;
      verified = p.verified;
      findings = f;
      breaks =
          length f.content_mismatches
          + length forks
          + length breaks
          + part.mismatches_count
          + part.invalid_count
          + bit (status_is "failed" v);
      witness = w;
      anchor_verification = v;
      anchor = anchor;
      first_break =
          placed p.first_details (issues_of f anchor v part.mismatches)
            (unplaced part.mismatches part.invalid part.invalid_count);
      chain_head = p.chain_head;
      complete = complete;
      next_after_id = if complete then none else some p.last_id;
      expected_previous_hash = if complete then none else some p.expected;
    }

-- the caller's `after_id` and `expected_previous_hash`
pub record Resume : Type 0 where
  pub after_id : ℕ
  pub expected : Option String

unfoldable pub anchor_of_start : ChainStart → Option Anchor
anchor_of_start empty_log = none
anchor_of_start unhashed_log = none
anchor_of_start (start _ _ a _) = a

module _ (sha256_hex : String → String) (postgres versioned : Bool) (estimate : Option ℕ)
    (fuel chunk_size : ℕ) (max_rows : Option ℕ) (heads : Option HeadScan)
    (verifier : Option (Anchor → AnchorVerification)) where
  unfoldable pub finish : List Row → Option Anchor → ℕ → Option (Progress × Bool) → Outcome
  finish rows anchor unhashed none = out_of_fuel
  finish rows anchor unhashed (some done) =
      verified_log (make_report rows versioned estimate heads verifier anchor unhashed done)

  unfoldable pub from_start : List Row → ChainStart → Outcome
  from_start rows empty_log = empty
  from_start rows unhashed_log = no_hashes (estimated_total estimate rows)
  from_start rows (start after_id expected anchor unhashed) =
      finish rows anchor unhashed
        (scan sha256_hex versioned fuel chunk_size max_rows rows (begin after_id expected))

  -- the guard on a resumed verification
  unfoldable pub resumed : List Row → ℕ → Option String → Outcome
  resumed rows after_id none = bad_previous_hash
  resumed rows after_id (some expected) =
      if is_hex64 expected
      then finish rows (anchor_of_start (find_chain_start rows)) 0
          (scan sha256_hex versioned fuel chunk_size max_rows rows (begin after_id expected))
      else bad_previous_hash

  unfoldable pub dispatch : List Row → Option Resume → Outcome
  dispatch rows none = from_start rows (find_chain_start rows)
  dispatch rows (some r) = resumed rows r.after_id r.expected

  unfoldable pub verify_chain : List Row → Option Resume → Outcome
  unfolding dispatch resumed from_start finish anchor_of_start
  verify_chain rows resume = if postgres then dispatch rows resume else unsupported
