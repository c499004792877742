-- ===== src/AuditLog.antt =====
-- The rows of the audit log and the queries that app/services/audit_chain.py and
-- app/services/audit_witness.py make of them. The table is a list of rows by ascending id.
use Prim.Native.String.{◌++◌}
use ai_agent_first_trust_por.Prelude.{
  ℕ, String, Bool, true, false, ◌&&◌, Option, none, some, List, [], ◌∷◌, ltb, ◌==◌, is_some, str_eq,
  find, select, length, if◌then◌else◌,
}

pub record Row : Type 0 where
  pub id : ℕ
  pub table_name : String
  pub record_id : String
  pub action : String
  pub changed_by : Option String
  pub changed_at : String  -- as `to_char` prints it
  pub old_values : Option String
  pub new_values : Option String
  pub previous_hash : Option String
  pub row_hash : Option String
  pub hash_version : Option ℕ

-- `COALESCE(x, '')`
abbrev pub or_empty : Option String → String
or_empty none = ""
or_empty (some s) = s

-- the bracketed part of the formula, for rows of version 2
version_part : Option ℕ → Row → String
version_part none r = ""
version_part (some v) r = if v == 2 then or_empty r.changed_by ++ r.changed_at else ""

-- `_chunk_sql`: the text whose SHA-256 a row's hash is; without the column `hash_version` every
-- row is of version 1
unfoldable pub row_text : Bool → Row → String
unfolding version_part
row_text with_hash_version r =
    or_empty r.previous_hash
    ++ r.table_name
    ++ r.record_id
    ++ r.action
    ++ (if with_hash_version then version_part r.hash_version r else "")
    ++ or_empty r.old_values
    ++ or_empty r.new_values

-- the column `computed`
unfoldable pub computed : (String → String) → Bool → Row → String
computed sha256_hex with_hash_version r = sha256_hex (row_text with_hash_version r)

-- a present and non-empty value, as Python tests it
abbrev pub is_truthy : Option String → Bool
is_truthy none = false
is_truthy (some s) = if str_eq s "" then false else true

abbrev pub eq_hash : Option String → String → Bool
eq_hash none h = false
eq_hash (some g) h = str_eq g h

-- SELECT ... WHERE id > :after_id ORDER BY id
unfoldable pub rows_after : ℕ → List Row → List Row
rows_after a rows = select (λ r. ltb a r.id) rows

-- the first row by id, and the first with a hash
unfoldable pub first_row : List Row → Option Row
first_row [] = none
first_row (r ∷ rows) = some r

unfoldable pub first_hashed : List Row → Option Row
first_hashed rows = find (λ r. is_some r.row_hash) rows

-- SELECT row_hash FROM audit_log WHERE id = :id
unfoldable pub stored_hash : ℕ → List Row → Option String
stored_hash i rows = elim (find (λ r. r.id == i) rows) [ none ↦ none | some r ↦ r.row_hash ]

-- SELECT min(id) ... WHERE row_hash = :h
unfoldable pub earliest_id : String → List Row → Option ℕ
earliest_id h [] = none
earliest_id h (r ∷ rows) =
    let later = earliest_id h rows in
    if eq_hash r.row_hash h
    then some (elim later [ none ↦ r.id | some i ↦ if ltb i r.id then i else r.id ])
    else later

-- SELECT min(id) FROM audit_log WHERE hash_version = 2, where that column exists
unfoldable pub first_serialized_id : Bool → List Row → Option ℕ
first_serialized_id with_hash_version [] = none
first_serialized_id with_hash_version (r ∷ rows) =
    let later = first_serialized_id with_hash_version rows in
    if with_hash_version && (elim r.hash_version [ none ↦ false | some v ↦ v == 2 ])
    then some (elim later [ none ↦ r.id | some i ↦ if ltb i r.id then i else r.id ])
    else later

-- `estimated_total`: the planner's estimate counts from a million rows on
unfoldable pub estimated_total : Option ℕ → List Row → ℕ
estimated_total none rows = length rows
estimated_total (some estimate) rows = if ltb estimate 1000000 then length rows else estimate
