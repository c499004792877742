-- ===== src/AuditChain/Scan.antt =====
-- The loop of `verify_chain` in app/services/audit_chain.py.
use Prim.Native.Nat.{min}
use ai_agent_first_trust_por.Prelude.{
  ℕ, zero, suc, ◌+◌, ◌-◌, String, Bool, true, not, ◌&&◌, ◌||◌, Option, none, some, List, [], ◌∷◌,
  ◌++◌, ltb, leb, is_some, any, str_eq, take, length, if◌then◌else◌,
}
use ai_agent_first_trust_por.AuditLog.{Row, computed, is_truthy, eq_hash, rows_after}

-- a value of `first_details`
pub record Detail : Type 0 where
  pub id : ℕ
  pub expected_previous_hash : String
  pub actual_previous_hash : Option String
  pub row_hash : Option String
  pub recomputed_hash : String

pub record Progress : Type 0 where
  pub expected : String
  pub chain_head : Option String
  pub last_id : ℕ
  pub verified : ℕ
  pub content_mismatch_ids : List ℕ
  pub link_candidates : List (ℕ × Option String)
  pub first_details : List Detail

-- `MAX_DETAILED_FINDINGS`
abbrev pub max_detailed_findings : ℕ
max_detailed_findings = 1000

abbrev pub begin : ℕ → String → Progress
begin after_id expected = record {
  expected = expected;
  chain_head = none;
  last_id = after_id;
  verified = 0;
  content_mismatch_ids = [];
  link_candidates = [];
  first_details = [];
}

module _ (sha256_hex : String → String) (with_hash_version : Bool) where
  unfoldable pub is_linked : String → Row → Bool
  is_linked expected r = is_some r.row_hash && eq_hash r.previous_hash expected

  unfoldable pub is_altered : Row → Bool
  is_altered r =
      is_some r.row_hash && not (eq_hash r.row_hash (computed sha256_hex with_hash_version r))

  -- the hash that the next row has to link to
  unfoldable pub next_expected : String → Row → String
  next_expected expected r = elim r.row_hash [
    | none ↦ expected
    | some h ↦ if str_eq h "" then expected else h
  ]

  detail : String → Row → Detail
  detail expected r = record {
    id = r.id;
    expected_previous_hash = expected;
    actual_previous_hash = r.previous_hash;
    row_hash = r.row_hash;
    recomputed_hash = computed sha256_hex with_hash_version r;
  }

  -- the body of `for row in rows`
  unfoldable pub check_row : Progress → Row → Progress
  unfolding detail
  check_row p r =
      let linked = is_linked p.expected r in
      let altered = is_altered r in
      record {
        expected = next_expected p.expected r;
        chain_head = if is_truthy r.row_hash then r.row_hash else p.chain_head;
        last_id = r.id;
        verified = p.verified + 1;
        content_mismatch_ids =
            if altered then p.content_mismatch_ids ++ r.id ∷ [] else p.content_mismatch_ids;
        link_candidates =
            if linked
            then p.link_candidates
            else p.link_candidates
              ++ (r.id, if is_truthy r.row_hash then r.previous_hash else none) ∷ [];
        first_details =
            if (not linked || altered) && ltb (length p.first_details) max_detailed_findings
            then p.first_details ++ detail p.expected r ∷ []
            else p.first_details;
      }

  unfoldable pub check_rows : Progress → List Row → Progress
  check_rows p [] = p
  check_rows p (r ∷ rows) = check_rows (check_row p r) rows

  -- how many rows the next chunk may hold; `none` when `max_rows` is used up
  unfoldable pub chunk_limit : ℕ → Option ℕ → ℕ → Option ℕ
  chunk_limit chunk_size none verified = some chunk_size
  chunk_limit chunk_size (some m) verified =
      if leb m verified then none else some (min chunk_size (m - verified))

  -- what happens with a chunk: the loop's `rest` is the next round
  unfoldable pub after_chunk :
      Option ℕ
      → ℕ
      → Progress
      → List Row
      → (Progress → Option (Progress × Bool))
      → Option (Progress × Bool)
  after_chunk max_rows limit p [] rest = some (p, true)
  after_chunk max_rows limit p (r ∷ rows) rest =
      let p' = check_rows p (r ∷ rows) in
      if ltb (length (r ∷ rows)) limit && not (is_some max_rows) then some (p', true) else rest p'

  unfoldable pub round :
      Option ℕ
      → List Row
      → Progress
      → Option ℕ
      → (Progress → Option (Progress × Bool))
      → Option (Progress × Bool)
  round max_rows rows p none rest = some (p, not (any (λ r. ltb p.last_id r.id) rows))
  round max_rows rows p (some limit) rest =
      after_chunk max_rows limit p (take limit (rows_after p.last_id rows)) rest

  -- `while True`, on fuel: the progress and `complete`, or `none` if the fuel runs out
  unfoldable pub scan :
      ℕ → (chunk_size : ℕ) → (max_rows : Option ℕ) → List Row → Progress → Option (Progress × Bool)
  unfolding round after_chunk
  scan zero chunk_size max_rows rows p = none
  scan (suc fuel) chunk_size max_rows rows p =
      round max_rows rows p (chunk_limit chunk_size max_rows p.verified)
        (scan fuel chunk_size max_rows rows)
