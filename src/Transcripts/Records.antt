-- ===== src/Transcripts/Records.antt =====
-- What the parse of one format holds: `_string_field`, `ParsedTranscript` and `_FormatParse` of
-- app/services/transcript_ingest.py. An error names what is wrong and the line.
use ai_agent_first_trust_por.Prelude.{
  ℕ, ◌+◌, ◌*◌, Bool, true, false, ◌&&◌, ◌||◌, Option, none, some, List, [], ◌∷◌, ◌++◌, ltb, leb,
  ◌==◌, length, all, if◌then◌else◌,
}
use ai_agent_first_trust_por.Auth.Header.{codes, same_text, lower}
use ai_agent_first_trust_por.EvidenceKeys.{byte_length}
use ai_agent_first_trust_por.DecisionLogs.Store.{Text, clean_text}
use ai_agent_first_trust_por.Transcripts.Json.{Json, string, null}

-- `_FIELD_COLUMNS`
pub data FieldName : Type 0 where
  message_role message_id_field model_field cwd_field git_branch_field payload_id payload_model
        payload_cwd payload_git_branch :
      FieldName

-- `_field_limit`
abbrev pub field_limit : FieldName → ℕ
field_limit message_role = 20
field_limit message_id_field = 100
field_limit model_field = 100
field_limit cwd_field = 500
field_limit git_branch_field = 200
field_limit payload_id = 100
field_limit payload_model = 100
field_limit payload_cwd = 500
field_limit payload_git_branch = 200

pub data Problem : Type 0 where
  not_a_string too_long : FieldName → (line : ℕ) → Problem
  nested_too_deeply load_failure : (line : ℕ) → Problem
  too_many_entries : Problem
  line_too_large tool_calls_too_large tool_calls_total_too_large : (line size : ℕ) → Problem

pub data Result {ℓ} (A : Type ℓ) : Type ℓ where
  ok : A → Result A
  raised : Problem → Result A

infixl 5 ◌>>=◌
abbrev pub ◌>>=◌ {ℓ κ} : {A : Type ℓ} {B : Type κ} → Result A → (A → Result B) → Result B
ok a >>= f = f a
raised e >>= f = raised e

-- `_string_field`
unfoldable pub string_field : Json → FieldName → ℕ → Result (Option Text)
string_field null name line = ok none
string_field (string s) name line =
    if ltb (field_limit name) (length (clean_text s))
    then raised (too_long name line)
    else ok (some (clean_text s))
string_field v name line = raised (not_a_string name line)

-- the entry that a record gives: role, text, tool calls, time and message id
pub record Found : Type 0 where
  pub role : Option Text
  pub text : Text
  pub tool_calls : Option Text
  pub timestamp : Option ℕ
  pub message_id : Option Text

pub record Entry : Type 0 where
  pub role : Option Text
  pub content_text : Option Text
  pub tool_calls : Option Text
  pub timestamp : Option ℕ
  pub message_id : Option Text
  pub is_verification : Bool

-- a `_FormatParse` with its `ParsedTranscript`
pub record FormatParse : Type 0 where
  pub entries : List Entry
  pub model : Option Text
  pub cwd : Option Text
  pub git_branch : Option Text
  pub started_at : Option ℕ
  pub ended_at : Option ℕ
  pub tool_calls_total : ℕ

abbrev pub new_parse : FormatParse
new_parse = record {
  entries = [];
  model = none;
  cwd = none;
  git_branch = none;
  started_at = none;
  ended_at = none;
  tool_calls_total = 0;
}

abbrev first_of : Option ℕ → ℕ → Option ℕ
first_of none t = some t
first_of (some s) t = some s

-- `note_timestamp`
unfoldable pub note_timestamp : Option ℕ → FormatParse → FormatParse
note_timestamp none f = f
note_timestamp (some t) f = record f { started_at = first_of f.started_at t; ended_at = some t }

abbrev pub max_transcript_entries : ℕ
max_transcript_entries = 50000

-- `MAX_ENTRY_BYTES`, `MAX_TOOL_CALLS_BYTES` and `MAX_TRANSCRIPT_TOOL_CALLS_BYTES`
abbrev pub max_entry_bytes : ℕ
max_entry_bytes = 8 * 1024 * 1024

abbrev pub max_tool_calls_bytes : ℕ
max_tool_calls_bytes = 8 * 1024 * 1024

abbrev pub max_transcript_tool_calls_bytes : ℕ
max_transcript_tool_calls_bytes = 32 * 1024 * 1024

-- `check_room`, and what follows it
unfoldable pub check_room {ℓ} : {A : Type ℓ} → FormatParse → Result A → Result A
check_room f next =
    if leb max_transcript_entries (length f.entries) then raised too_many_entries else next

-- `\s` of a regular expression
abbrev is_space : ℕ → Bool
is_space c =
    (leb 9 c && leb c 13)
    || ((leb 28 c && leb c 32)
        || (c == 133
            || (c == 160
                || (c == 5760
                    || ((leb 8192 c && leb c 8202)
                        || (c == 8232
                            || (c == 8233 || (c == 8239 || (c == 8287 || c == 12288)))))))))

abbrev skip_spaces : Text → Text
skip_spaces [] = []
skip_spaces (c ∷ s) = let rest = skip_spaces s in if is_space c then rest else c ∷ s

after_done : Text → Bool
after_done [] = true
after_done (c ∷ s) = if c == b'.' then all is_space s else all is_space (c ∷ s)

done_at : Text → Bool
done_at (d ∷ o ∷ n ∷ e ∷ s) =
    same_text (lower d ∷ lower o ∷ lower n ∷ lower e ∷ []) (codes "done") && after_done s
done_at _ = false

-- `DONE_PATTERN.match`
unfoldable pub is_done : Text → Bool
unfolding done_at after_done
is_done s = done_at (skip_spaces s)

abbrev pub none_if_empty : Text → Option Text
none_if_empty [] = none
none_if_empty (c ∷ s) = some (c ∷ s)

abbrev pub text_of : Option Text → Text
text_of none = []
text_of (some s) = s

abbrev is_user : Option Text → Bool
is_user none = false
is_user (some r) = same_text r (codes "user")

-- the entry that `add` appends
abbrev pub entry_of : Found → Entry
entry_of e = record {
  role = e.role;
  content_text = none_if_empty e.text;
  tool_calls = none_if_empty (text_of e.tool_calls);
  timestamp = e.timestamp;
  message_id = e.message_id;
  is_verification = is_user e.role && is_done e.text;
}

abbrev pub appended : Found → FormatParse → ℕ → FormatParse
appended e f total = record f { entries = f.entries ++ entry_of e ∷ []; tool_calls_total = total }

-- the size that the tool calls of an entry are stored in
abbrev pub stored_size : Option Text → ℕ
stored_size calls = byte_length (text_of calls)

-- `_FormatParse.add`; no tool calls have size 0, which neither limit refuses
unfoldable pub add : ℕ → Found → FormatParse → Result FormatParse
add line e f =
    let size = stored_size e.tool_calls in
    let total = f.tool_calls_total + size in
    if ltb 0 size && ltb max_tool_calls_bytes size
    then raised (tool_calls_too_large line size)
    else if ltb 0 size && ltb max_transcript_tool_calls_bytes total
    then raised (tool_calls_total_too_large line total)
    else ok (appended e f total)
