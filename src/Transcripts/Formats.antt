-- ===== src/Transcripts/Formats.antt =====
-- The records of the two formats: `_is_codex_record`, `_claude_record`, `_codex_record` and
-- `_codex_item` of app/services/transcript_ingest.py. `_parse_timestamp` is an argument.
use ai_agent_first_trust_por.Prelude.{
  ℕ, Bool, true, false, ◌&&◌, ◌||◌, Option, none, some, [], ◌∷◌, if◌then◌else◌,
}
use ai_agent_first_trust_por.Auth.Header.{codes, same_text}
use ai_agent_first_trust_por.DecisionLogs.Store.{Text, clean_text}
use ai_agent_first_trust_por.Transcripts.Json.{
  Json, string, object, Items, item, no_items, Fields, Loaded, lookup, get, or_json, or_else,
  is_object, is_string, fields_of, extract_text, extract_codex_text, extract_tool_calls,
  codex_tool_use, ends_with, call_suffix,
}
use ai_agent_first_trust_por.Transcripts.Records.{
  FieldName, FormatParse, Found, Result, check_room, note_timestamp, ok, string_field, ◌>>=◌,
  message_role, payload_id, payload_git_branch, payload_cwd, payload_model, message_id_field,
  model_field, cwd_field, git_branch_field,
}

pub data RecordType : Type 0 where
  user assistant session_meta turn_context response_item event_msg other_type : RecordType

named : Text → RecordType
named t =
    if same_text t (codes "user")
    then user
    else if same_text t (codes "assistant")
    then assistant
    else if same_text t (codes "session_meta")
    then session_meta
    else if same_text t (codes "turn_context")
    then turn_context
    else if same_text t (codes "response_item")
    then response_item
    else if same_text t (codes "event_msg")
    then event_msg
    else other_type

-- the type of a record, as the comparisons with the known ones tell it
unfoldable pub type_of : Json → RecordType
unfolding named
type_of (string t) = named t
type_of _ = other_type

abbrev pub record_type : Fields → RecordType
record_type fs = type_of (get (codes "type") fs)

-- `CODEX_RECORD_TYPES` and `CLAUDE_RECORD_TYPES`
abbrev pub is_codex_type : RecordType → Bool
is_codex_type session_meta = true
is_codex_type turn_context = true
is_codex_type response_item = true
is_codex_type event_msg = true
is_codex_type _ = false

abbrev pub is_claude_type : RecordType → Bool
is_claude_type user = true
is_claude_type assistant = true
is_claude_type _ = false

abbrev pub payload_of : Fields → Json
payload_of fs = get (codes "payload") fs

-- `_is_codex_record`
unfoldable pub is_codex_record : Fields → Bool
is_codex_record fs = is_codex_type (record_type fs) && is_object (payload_of fs)

-- `not parsed.cwd`, of a text or `None`
abbrev is_blank : Option Text → Bool
is_blank none = true
is_blank (some []) = true
is_blank (some (c ∷ s)) = false

-- a stored field that is read where it has no value yet
unfoldable pub fill : Option Text → Json → FieldName → ℕ → Result (Option Text)
fill old v name line = if is_blank old then string_field v name line else ok old

abbrev string_or_none : Json → Option Text
string_or_none (string s) = some s
string_or_none _ = none

pub record ClaudeFields : Type 0 where
  pub role : Option Text
  pub model : Option Text
  pub cwd : Option Text
  pub git_branch : Option Text
  pub message_id : Option Text

-- the entry of a Codex message, by its id
abbrev pub message_found : Fields → Option ℕ → Option Text → Result (Option Found)
message_found payload time id = ok (
    some (record {
      role = string_or_none (get (codes "role") payload);
      text = clean_text (extract_codex_text (get (codes "content") payload));
      tool_calls = none;
      timestamp = time;
      message_id = id;
    }))

-- the entry of a Codex tool call
abbrev pub call_found : Text → Option ℕ → Option Text → Result (Option Found)
call_found calls time id = ok (
    some (record {
      role = some (codes "assistant");
      text = [];
      tool_calls = some calls;
      timestamp = time;
      message_id = id;
    }))

abbrev pub located : FormatParse → Option Text × Option Text → Result (Option Found × FormatParse)
located f (cwd, branch) = ok (none, record f { cwd = cwd; git_branch = branch })

abbrev pub in_context :
    FormatParse → Option Text × Option Text → Result (Option Found × FormatParse)
in_context f (model, cwd) = ok (none, record f { model = model; cwd = cwd })

abbrev pub with_parse : FormatParse → Option Found → Result (Option Found × FormatParse)
with_parse f found = ok (found, f)

module _ (str_of : Json → Text) (tool_calls_json : Items → Text) (loads : Text → Loaded)
    (parse_timestamp : Json → Option ℕ) where
  abbrev pub time_of : Fields → Option ℕ
  time_of fs = parse_timestamp (get (codes "timestamp") fs)

  -- the fields that `_claude_record` reads, in its order
  unfoldable pub claude_fields : FormatParse → Fields → ℕ → Result ClaudeFields
  claude_fields f fs line = do
    let message = fields_of (get (codes "message") fs)
    role ←
        string_field (or_json (get (codes "type") fs) (lookup (codes "role") message)) message_role
          line
    model ←
        fill f.model (or_else (get (codes "model") message) (get (codes "version") fs)) model_field
          line
    cwd ← fill f.cwd (get (codes "cwd") fs) cwd_field line
    branch ← fill f.git_branch (get (codes "gitBranch") fs) git_branch_field line
    id ← string_field (get (codes "id") message) message_id_field line
    ok (record { role = role; model = model; cwd = cwd; git_branch = branch; message_id = id })

  -- the session metadata that it updates, and the entry that it returns
  abbrev pub claude_found : FormatParse → Fields → ClaudeFields → Result (Found × FormatParse)
  claude_found f fs x =
      let blocks = get (codes "content") (fields_of (get (codes "message") fs)) in
      ok (
        record {
          role = x.role;
          text = clean_text (extract_text str_of tool_calls_json loads blocks);
          tool_calls = extract_tool_calls str_of tool_calls_json loads blocks;
          timestamp = time_of fs;
          message_id = x.message_id;
        },
        note_timestamp (time_of fs)
            (record f { model = x.model; cwd = x.cwd; git_branch = x.git_branch }),
      )

  unfoldable pub claude_record : FormatParse → Fields → ℕ → Result (Found × FormatParse)
  claude_record f fs line = check_room f (claude_fields f fs line >>= claude_found f fs)

  unfoldable pub codex_message : FormatParse → Fields → Option ℕ → ℕ → Result (Option Found)
  codex_message f payload time line =
      let role = get (codes "role") payload in
      if is_string (codes "user") role || is_string (codes "assistant") role
      then check_room f
          (string_field (get (codes "id") payload) payload_id line >>= message_found payload time)
      else ok none

  unfoldable pub codex_call : FormatParse → Text → Fields → Option ℕ → ℕ → Result (Option Found)
  codex_call f kind payload time line =
      if ends_with kind call_suffix
      then check_room f (
          string_field (get (codes "id") payload) payload_id line
          >>= call_found
              (tool_calls_json
                (item (codex_tool_use str_of tool_calls_json loads kind payload) no_items))
              time)
      else ok none

  -- `_codex_item`
  unfoldable pub codex_item : FormatParse → Fields → Option ℕ → ℕ → Json → Result (Option Found)
  codex_item f payload time line (string kind) =
      if same_text kind (codes "message")
      then codex_message f payload time line
      else codex_call f kind payload time line
  codex_item f payload time line _ = ok none

  abbrev branch_of : FormatParse → Json → ℕ → Result (Option Text)
  branch_of f (object git) line =
      fill f.git_branch (get (codes "branch") git) payload_git_branch line
  branch_of f _ line = ok f.git_branch

  abbrev pub session_fields : FormatParse → Fields → ℕ → Result (Option Text × Option Text)
  session_fields f payload line = do
    cwd ← fill f.cwd (get (codes "cwd") payload) payload_cwd line
    branch ← branch_of f (get (codes "git") payload) line
    ok (cwd, branch)

  abbrev pub context_fields : FormatParse → Fields → ℕ → Result (Option Text × Option Text)
  context_fields f payload line = do
    model ← fill f.model (get (codes "model") payload) payload_model line
    cwd ← fill f.cwd (get (codes "cwd") payload) payload_cwd line
    ok (model, cwd)

  -- the branches of `_codex_record`, after the timestamp is noted
  unfoldable pub codex_by_type :
      FormatParse → Fields → Option ℕ → ℕ → RecordType → Result (Option Found × FormatParse)
  codex_by_type f payload time line session_meta = session_fields f payload line >>= located f
  codex_by_type f payload time line turn_context = context_fields f payload line >>= in_context f
  codex_by_type f payload time line response_item =
      codex_item f payload time line (get (codes "type") payload) >>= with_parse f
  codex_by_type f payload time line _ = ok (none, f)

  -- `_codex_record`
  unfoldable pub codex_record :
      FormatParse → Fields → Fields → ℕ → Result (Option Found × FormatParse)
  codex_record f fs payload line =
      codex_by_type (note_timestamp (time_of fs) f) payload (time_of fs) line (record_type fs)
