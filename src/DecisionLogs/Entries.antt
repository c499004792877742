-- ===== src/DecisionLogs/Entries.antt =====
-- Entries, their digest and their comparison with stored ones:
-- app/services/evidence_import_decision_logs.py, with `same_tool_calls` of
-- app/services/transcript_ingest.py. An instant is a number, in UTC as `_utc` makes it. SHA-256, the
-- bytes of an entry's canonical JSON line and the re-encoding of stored tool calls (`json.loads`, then
-- `json.dumps`) are arguments.
use Prim.Native.Char.{code}
use ai_agent_first_trust_por.Prelude.{
  ℕ, zero, suc, String, Bool, true, false, not, ◌&&◌, ◌||◌, Option, none, some, List, [], ◌∷◌, ◌++◌,
  ltb, ◌==◌, str_eq, if◌then◌else◌,
}

pub record Entry : Type 0 where
  pub role : Option String
  pub content_text : Option String
  pub tool_calls : Option String
  pub timestamp : Option ℕ
  pub message_id : Option String
  pub is_verification : Bool

abbrev pub eq_text : Option String → Option String → Bool
eq_text none none = true
eq_text none (some b) = false
eq_text (some a) none = false
eq_text (some a) (some b) = str_eq a b

abbrev pub eq_instant : Option ℕ → Option ℕ → Bool
eq_instant none none = true
eq_instant none (some b) = false
eq_instant (some a) none = false
eq_instant (some a) (some b) = a == b

abbrev pub eq_bool : Bool → Bool → Bool
eq_bool true b = b
eq_bool false b = not b

-- the columns but the tool calls
unfoldable pub same_columns : Entry → Entry → Bool
same_columns s p =
    eq_text s.role p.role
    && (eq_text s.content_text p.content_text
        && (eq_instant s.timestamp p.timestamp
            && (eq_text s.message_id p.message_id && eq_bool s.is_verification p.is_verification)))

-- `isascii()` and `"\\u" in stored`
abbrev is_ascii : String → Bool
is_ascii String.[] = true
is_ascii (String.◌∷◌ c s) = ltb (code c) 128 && is_ascii s

has_escape_after : Bool → String → Bool
has_escape_after slash String.[] = false
has_escape_after slash (String.◌∷◌ c s) =
    let rest = has_escape_after (code c == 92) s in (slash && code c == b'u') || rest

has_escape : String → Bool
unfolding has_escape_after
has_escape s = has_escape_after false s

abbrev pub get_elem? {ℓ} : {A : Type ℓ} → List A → ℕ → Option A
get_elem? [] i = none
get_elem? (x ∷ xs) zero = some x
get_elem? (x ∷ xs) (suc i) = get_elem? xs i

reencoded_is : String → Option String → Bool
reencoded_is parsed none = false
reencoded_is parsed (some text) = str_eq text parsed

module _ (reencode : String → Option String) where
  earlier_form : Option String → Option String → Bool
  unfolding has_escape reencoded_is
  earlier_form none parsed = false
  earlier_form (some stored) none = false
  earlier_form (some stored) (some parsed) =
      if not (is_ascii stored) || (not (has_escape stored) || is_ascii parsed)
      then false
      else reencoded_is parsed (reencode stored)

  unfoldable pub same_tool_calls : Option String → Option String → Bool
  unfolding earlier_form
  same_tool_calls stored parsed = if eq_text stored parsed then true else earlier_form stored parsed

  -- `_same_entry`
  unfoldable pub same_entry : Entry → Entry → Bool
  unfolding same_columns
  same_entry s p =
      if same_columns s p && eq_text s.tool_calls p.tool_calls
      then true
      else same_columns s p && same_tool_calls s.tool_calls p.tool_calls

-- `_Comparison`; a SHA-256 object is the bytes that it has taken
pub record Comparison : Type 0 where
  pub stored : ℕ
  pub difference : Option ℕ
  pub prefix : List ℕ
  pub stored_sha256 : String

-- the variables of the loop of `_compare_with_stored`
pub record Progress : Type 0 where
  pub count : ℕ
  pub difference : Option ℕ
  pub prefix : Option (List ℕ)
  pub taken : List ℕ

abbrev pub started : Progress
started = record { count = 0; difference = none; prefix = none; taken = [] }

-- the bytes that a digest takes from entries, in order
unfoldable pub bytes_of : (Entry → List ℕ) → List Entry → List ℕ
bytes_of canonical [] = []
bytes_of canonical (e ∷ es) = canonical e ++ bytes_of canonical es

abbrev pub prefix_or : List ℕ → Option (List ℕ) → List ℕ
prefix_or b none = b
prefix_or b (some c) = c

module _ (canonical : Entry → List ℕ) (reencode : String → Option String) where
  unfoldable pub meets : Progress → Entry → Option Entry → Progress
  meets p row none = record p { prefix = some p.taken }
  meets p row (some e) =
      if same_entry reencode row e
      then p
      else record p { difference = some p.count; prefix = some p.taken }

  -- the body of the loop, up to the two last statements
  unfoldable pub settle : List Entry → Progress → Entry → Option (List ℕ) → Progress
  settle entries p row none = meets p row (get_elem? entries p.count)
  settle entries p row (some b) = p

  abbrev pub counted : Progress → Entry → Progress
  counted p row = record p { count = suc p.count; taken = p.taken ++ canonical row }

  unfoldable pub compare_row : List Entry → Progress → Entry → Progress
  unfolding settle meets
  compare_row entries p row = counted (settle entries p row p.prefix) row

  unfoldable pub compare_rows : List Entry → Progress → List Entry → Progress
  compare_rows entries p [] = p
  compare_rows entries p (row ∷ rows) = compare_rows entries (compare_row entries p row) rows

module _ (sha256_hex : List ℕ → String) (canonical : Entry → List ℕ) where
  unfoldable pub entries_digest : List Entry → String
  entries_digest es = sha256_hex (bytes_of canonical es)

  -- `digest_with`
  unfoldable pub digest_with : Comparison → List Entry → String
  digest_with c es = sha256_hex (c.prefix ++ bytes_of canonical es)

  -- `_compare_with_stored`
  unfoldable pub compare_with_stored :
      (String → Option String) → List Entry → List Entry → Comparison
  compare_with_stored reencode rows entries =
      let p = compare_rows canonical reencode entries started rows in
      record {
        stored = p.count;
        difference = p.difference;
        prefix = prefix_or p.taken p.prefix;
        stored_sha256 = sha256_hex p.taken;
      }
