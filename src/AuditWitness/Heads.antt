-- ===== src/AuditWitness/Heads.antt =====
-- `check_heads`, `resolve_foreign_chains` and `report` of app/services/audit_witness.py. A valid
-- entry of a scan carries the chain id of its key, which is also its body's.
use Prim.Native.String.{compare}
use text.Mathlib.Text.{is_lt}
use ai_agent_first_trust_por.Prelude.{
  ℕ, suc, ◌+◌, String, Bool, true, false, not, ◌&&◌, ◌||◌, Option, none, some, List, [], ◌∷◌, ◌++◌,
  ltb, ◌==◌, any, select, take, length, str_eq, if◌then◌else◌,
}
use ai_agent_first_trust_por.AuditLog.{Row, stored_hash, first_hashed, eq_hash}

pub record Entry : Type 0 where
  pub key : String
  pub chain_id : String
  pub id : ℕ
  pub row_hash : String
  pub published_at : Option String

pub record Invalid : Type 0 where
  pub key : String
  pub reason : String

-- `{"valid": [...], "invalid": [...]}`
pub record HeadScan : Type 0 where
  pub valid : List Entry
  pub invalid : List Invalid

pub data MismatchIssue : Type 0 where
  row_missing row_hash_differs no_current_head not_continued : MismatchIssue

pub record Mismatch : Type 0 where
  pub id : Option ℕ
  pub chain_id : Option String
  pub published_row_hash : Option String
  pub stored_row_hash : Option String
  pub published_at : Option String
  pub issue : MismatchIssue
  pub key : Option String

pub record ForeignChain : Type 0 where
  pub chain_id : String
  pub last_published_id : ℕ
  pub last_published_row_hash : String
  pub last_published_at : Option String
  pub key : String
  pub heads : ℕ

pub record Witness : Type 0 where
  pub checked : ℕ
  pub published : ℕ
  pub foreign_chains : List ForeignChain
  pub continued_chains : List ForeignChain
  pub unverified_continuations : List ForeignChain
  pub other_chain : ℕ
  pub mismatches : List Mismatch
  pub invalid_heads : List Invalid
  pub latest_published_id : Option ℕ

-- `chain_id`: 16 characters of the first row hash, which is ASCII
chain_of_row : Option Row → Option String
chain_of_row none = none
chain_of_row (some r) = elim r.row_hash [
  | none ↦ none
  | some h ↦ if str_eq h "" then none else some (Prim.Native.String.slice h 0 16)
]

unfoldable pub chain_id : List Row → Option String
unfolding chain_of_row
chain_id rows = chain_of_row (first_hashed rows)

-- whether an entry is of the current chain
abbrev pub is_current : Option String → Entry → Bool
is_current none e = false
is_current (some ours) e = str_eq e.chain_id ours

mismatch_of : String → Option String → Entry → Mismatch
mismatch_of ours stored e = record {
  id = some e.id;
  chain_id = some ours;
  published_row_hash = some e.row_hash;
  stored_row_hash = stored;
  published_at = e.published_at;
  issue = elim stored [ none ↦ row_missing | some _ ↦ row_hash_differs ];
  key = some e.key;
}

-- the loop over the current chain's entries
unfoldable pub compare_heads : String → List Row → List Entry → List Mismatch
unfolding mismatch_of
compare_heads ours rows [] = []
compare_heads ours rows (e ∷ es) =
    let rest = compare_heads ours rows es in
    let stored = stored_hash e.id rows in
    if eq_hash stored e.row_hash then rest else mismatch_of ours stored e ∷ rest

-- `sorted(by_chain)` of the other chains: an insertion that keeps each id once
insert_chain : String → List String → List String
insert_chain c [] = c ∷ []
insert_chain c (d ∷ ds) =
    if str_eq c d then d ∷ ds else if is_lt (compare c d) then c ∷ d ∷ ds else d ∷ insert_chain c ds

unfoldable pub chains_of : List Entry → List String
unfolding insert_chain
chains_of [] = []
chains_of (e ∷ es) = insert_chain e.chain_id (chains_of es)

-- `max(entries, key=...)`: the first of the greatest
unfoldable pub last_entry : Entry → List Entry → Entry
last_entry best [] = best
last_entry best (e ∷ es) = last_entry (if ltb best.id e.id then e else best) es

foreign_of : String → List Entry → List ForeignChain
foreign_of c [] = []
foreign_of c (e ∷ es) =
    let last = last_entry e es in
    record {
      chain_id = c;
      last_published_id = last.id;
      last_published_row_hash = last.row_hash;
      last_published_at = last.published_at;
      key = last.key;
      heads = suc (length es);
    }
    ∷ []

foreign_list : List String → List Entry → List ForeignChain
foreign_list [] es = []
foreign_list (c ∷ cs) es = foreign_of c (select (λ e. str_eq e.chain_id c) es) ++ foreign_list cs es

unfoldable pub foreign_chains_of : List Entry → List ForeignChain
unfolding foreign_list foreign_of
foreign_chains_of es = foreign_list (chains_of es) es

abbrev pub sum_heads : List ForeignChain → ℕ
sum_heads [] = 0
sum_heads (f ∷ fs) = f.heads + sum_heads fs

is_nonempty {ℓ} : {A : Type ℓ} → List A → Bool
is_nonempty [] = false
is_nonempty (_ ∷ _) = true

no_head_mismatch : Option String → Mismatch
no_head_mismatch ours = record {
  id = none;
  chain_id = ours;
  published_row_hash = none;
  stored_row_hash = none;
  published_at = none;
  issue = no_current_head;
  key = none;
}

latest_id : List Entry → Option ℕ
latest_id [] = none
latest_id (e ∷ es) = some (last_entry e es).id

current_mismatches : Option String → List Row → List Entry → List Mismatch
current_mismatches none rows es = []
current_mismatches (some ours) rows es = compare_heads ours rows es

unfoldable pub check_heads : List Row → HeadScan → Witness
unfolding current_mismatches is_nonempty no_head_mismatch latest_id
check_heads rows scan =
    let ours = chain_id rows in
    let current = select (is_current ours) scan.valid in
    let foreign = foreign_chains_of (select (λ e. not (is_current ours e)) scan.valid) in
    record {
      checked = length current;
      published = length scan.valid + length scan.invalid;
      foreign_chains = foreign;
      continued_chains = [];
      unverified_continuations = [];
      other_chain = sum_heads foreign;
      mismatches =
          current_mismatches ours rows current
          ++ (if (is_nonempty scan.valid || is_nonempty scan.invalid) && not (is_nonempty current)
              then no_head_mismatch ours ∷ []
              else []);
      invalid_heads = scan.invalid;
      latest_published_id = latest_id current;
    }

pub record Anchor : Type 0 where
  pub id : ℕ
  pub archived_chain_head : Option String

pub record Lineage : Type 0 where
  pub chain_id : String
  pub final_row_id : ℕ
  pub final_row_hash : String

pub record AnchorVerification : Type 0 where
  pub status : String
  pub issues : List String
  pub lineage : List Lineage

abbrev pub lineage_of : Option AnchorVerification → List Lineage
lineage_of none = []
lineage_of (some v) = v.lineage

abbrev pub status_is : String → Option AnchorVerification → Bool
status_is s none = false
status_is s (some v) = str_eq v.status s

-- `signature in lineage`
unfoldable pub in_lineage : ForeignChain → List Lineage → Bool
in_lineage c ms =
    any
      (λ m.
        str_eq m.chain_id c.chain_id
        && (m.final_row_id == c.last_published_id
            && str_eq m.final_row_hash c.last_published_row_hash))
      ms

unfoldable pub named_by_unverified : ForeignChain → Option Anchor → Option AnchorVerification → Bool
named_by_unverified c none v = false
named_by_unverified c (some a) v =
    status_is "unverified" v && eq_hash a.archived_chain_head c.last_published_row_hash

replaced : ForeignChain → Mismatch
replaced c = record {
  id = none;
  chain_id = some c.chain_id;
  published_row_hash = some c.last_published_row_hash;
  stored_row_hash = none;
  published_at = c.last_published_at;
  issue = not_continued;
  key = some c.key;
}

unfoldable pub place_chain :
    Option Anchor → Option AnchorVerification → ForeignChain → Witness → Witness
unfolding replaced
place_chain a v c w =
    if in_lineage c (lineage_of v)
    then record w { continued_chains = w.continued_chains ++ c ∷ [] }
    else if named_by_unverified c a v
    then record w { unverified_continuations = w.unverified_continuations ++ c ∷ [] }
    else record w { mismatches = w.mismatches ++ replaced c ∷ [] }

-- the loop over `witness.pop("foreign_chains")`
unfoldable pub place_chains :
    Option Anchor → Option AnchorVerification → List ForeignChain → Witness → Witness
place_chains a v [] w = w
place_chains a v (c ∷ cs) w = place_chains a v cs (place_chain a v c w)

unfoldable pub resolve_foreign_chains :
    Witness → Option Anchor → Option AnchorVerification → Witness
resolve_foreign_chains w a v = place_chains a v w.foreign_chains (record w { foreign_chains = [] })

-- `MAX_REPORTED`
abbrev pub max_reported : ℕ
max_reported = 100

pub record WitnessReport : Type 0 where
  pub witness : Witness
  pub mismatches_count : ℕ
  pub invalid_heads_count : ℕ
  pub continued_chains_count : ℕ
  pub unverified_continuations_count : ℕ

-- long lists are truncated, with their counts
unfoldable pub report : Witness → WitnessReport
report w = record {
  witness = record w {
    mismatches = take max_reported w.mismatches;
    invalid_heads = take max_reported w.invalid_heads;
    continued_chains = take max_reported w.continued_chains;
    unverified_continuations = take max_reported w.unverified_continuations;
  };
  mismatches_count = length w.mismatches;
  invalid_heads_count = length w.invalid_heads;
  continued_chains_count = length w.continued_chains;
  unverified_continuations_count = length w.unverified_continuations;
}
