-- ===== src/Transcripts/Steps.antt =====
-- What a record adds to a parse of app/services/transcript_ingest.py: at most one entry, and only where
-- there is room for it.
use ai_agent_first_trust_por.Prelude.{
  ℕ, ◌<◌, ◌||◌, Option, none, some, ◌≡◌, refl, arith, leb, length, Bool-cases, inl, inr,
}
use ai_agent_first_trust_por.Auth.Header.{codes, same_text}
use ai_agent_first_trust_por.DecisionLogs.Store.{Text}
use ai_agent_first_trust_por.Transcripts.Json.{
  Json, string, Items, Fields, Loaded, get, is_string, ends_with, call_suffix, fields_of,
}
use ai_agent_first_trust_por.Transcripts.Records.{
  Result, ok, raised, ◌>>=◌, Found, FormatParse, note_timestamp, check_room, add, string_field,
  payload_id, max_transcript_entries,
}
use ai_agent_first_trust_por.Transcripts.Formats.{
  RecordType, session_meta, turn_context, response_item, claude_fields, claude_found, claude_record,
  message_found, call_found, located, in_context, with_parse, session_fields, context_fields,
  time_of, record_type, is_claude_type, payload_of, codex_message, codex_call, codex_item,
  codex_by_type, codex_record,
}
use ai_agent_first_trust_por.Transcripts.Parse.{codex_step, claude_step, add_found, add_claude}

-- A property of a result that is not an error.
abbrev pub Holds {ℓ κ} : {A : Type ℓ} → (A → Type κ) → Result A → Type κ
Holds P (ok a) = P a
Holds P (raised e) = Unit {_}

pub bind-Holds {ℓ κ μ} :
    {A : Type ℓ} {B : Type κ} (P : B → Type μ) (m : Result A) (f : A → Result B)
    → ((a : A) → Holds P (f a))
    → Holds P (m >>= f)
bind-Holds P (ok a) f h = h a
bind-Holds P (raised e) f h = tt

pub then-Holds {ℓ κ μ ν} :
    {A : Type ℓ} {B : Type κ} (P : A → Type ν) (Q : B → Type μ) (m : Result A) (f : A → Result B)
    → Holds P m
    → ((a : A) → P a → Holds Q (f a))
    → Holds Q (m >>= f)
then-Holds P Q (ok a) f p h = h a p
then-Holds P Q (raised e) f p h = tt

-- The same entries and total.
abbrev pub Kept : FormatParse → FormatParse → Type 0
Kept f g = (g.entries ≡ f.entries) × (g.tool_calls_total ≡ f.tool_calls_total)

pub note-Kept : (t : Option ℕ) (f : FormatParse) → Kept f (note_timestamp t f)
unfolding note_timestamp
note-Kept none f = (refl, refl)
note-Kept (some t) f = (refl, refl)

-- What a record finds leaves the entries as they are, and there is room for one.
abbrev pub Room : FormatParse → Found × FormatParse → Type 0
Room f (e, g) = Kept f g × (length f.entries < max_transcript_entries)

abbrev pub RoomIfFound : FormatParse → Option Found × FormatParse → Type 0
RoomIfFound f (none, g) = Kept f g
RoomIfFound f (some e, g) = Kept f g × (length f.entries < max_transcript_entries)

-- What is found in a Codex item, and whether there is room for it.
abbrev pub RoomFor : FormatParse → Option Found → Type 0
RoomFor f none = Unit {0}
RoomFor f (some e) = length f.entries < max_transcript_entries

check_room-Holds {ℓ κ} :
    {A : Type ℓ} (P : A → Type κ) (f : FormatParse) (next : Result A)
    → (length f.entries < max_transcript_entries → Holds P next)
    → Holds P (check_room f next)
unfolding check_room
check_room-Holds P f next h = elim (Bool-cases (leb max_transcript_entries (length f.entries))) [
  | inl full ↦ rw full tt
  | inr room ↦ rw room (h (ground arith))
]

module _ (str_of : Json → Text) (tool_calls_json : Items → Text) (loads : Text → Loaded)
    (parse_timestamp : Json → Option ℕ) where
  claude_record-Room :
      (f : FormatParse) (fs : Fields) (line : ℕ)
      → Holds (Room f) (claude_record str_of tool_calls_json loads parse_timestamp f fs line)
  unfolding claude_record
  claude_record-Room f fs line = check_room-Holds (Room f) f _ (λ room.
      bind-Holds (Room f) (claude_fields str_of tool_calls_json loads parse_timestamp f fs line)
        (claude_found str_of tool_calls_json loads parse_timestamp f fs)
        (λ x. (
          note-Kept (time_of str_of tool_calls_json loads parse_timestamp fs)
              (record f { model = x.model; cwd = x.cwd; git_branch = x.git_branch }),
          room,
        )))

  codex_message-RoomFor :
      (f : FormatParse) (payload : Fields) (time : Option ℕ) (line : ℕ)
      → Holds
          (RoomFor f)
          (codex_message str_of tool_calls_json loads parse_timestamp f payload time line)
  unfolding codex_message
  codex_message-RoomFor f payload time line =
      let role = get (codes "role") payload in
      elim (Bool-cases (is_string (codes "user") role || is_string (codes "assistant") role)) [
        | inl stored ↦ rw stored (
            check_room-Holds (RoomFor f) f _ (λ room.
              bind-Holds (RoomFor f) (string_field (get (codes "id") payload) payload_id line)
                (message_found payload time) (λ id. room)))
        | inr not_stored ↦ rw not_stored tt
      ]

  codex_call-RoomFor :
      (f : FormatParse) (kind : Text) (payload : Fields) (time : Option ℕ) (line : ℕ)
      → Holds
          (RoomFor f)
          (codex_call str_of tool_calls_json loads parse_timestamp f kind payload time line)
  unfolding codex_call
  codex_call-RoomFor f kind payload time line = elim (Bool-cases (ends_with kind call_suffix)) [
    | inl call ↦ rw call (
        check_room-Holds (RoomFor f) f _ (λ room.
          bind-Holds (RoomFor f) (string_field (get (codes "id") payload) payload_id line)
            (call_found _ time) (λ id. room)))
    | inr other ↦ rw other tt
  ]

  codex_item-RoomFor :
      (f : FormatParse) (payload : Fields) (time : Option ℕ) (line : ℕ) (kind : Json)
      → Holds
          (RoomFor f)
          (codex_item str_of tool_calls_json loads parse_timestamp f payload time line kind)
  unfolding codex_item
  codex_item-RoomFor f payload time line (string kind) =
      elim (Bool-cases (same_text kind (codes "message"))) [
        | inl message ↦ rw message (codex_message-RoomFor f payload time line)
        | inr other ↦ rw other (codex_call-RoomFor f kind payload time line)
      ]
  codex_item-RoomFor f payload time line other = tt

  with_room : (f : FormatParse) (o : Option Found) → RoomFor f o → RoomIfFound f (o, f)
  with_room f none h = (refl, refl)
  with_room f (some e) h = ((refl, refl), h)

  codex_by_type-RoomIfFound :
      (f : FormatParse) (payload : Fields) (time : Option ℕ) (line : ℕ) (t : RecordType)
      → Holds
          (RoomIfFound f)
          (codex_by_type str_of tool_calls_json loads parse_timestamp f payload time line t)
  unfolding codex_by_type
  codex_by_type-RoomIfFound f payload time line session_meta =
      bind-Holds (RoomIfFound f)
        (session_fields str_of tool_calls_json loads parse_timestamp f payload line) (located f)
        (λ x. (refl, refl))
  codex_by_type-RoomIfFound f payload time line turn_context =
      bind-Holds (RoomIfFound f)
        (context_fields str_of tool_calls_json loads parse_timestamp f payload line) (in_context f)
        (λ x. (refl, refl))
  codex_by_type-RoomIfFound f payload time line response_item =
      then-Holds (RoomFor f) (RoomIfFound f)
        (codex_item str_of tool_calls_json loads parse_timestamp f payload time line
          (get (codes "type") payload))
        (with_parse f) (codex_item-RoomFor f payload time line (get (codes "type") payload))
        (with_room f)
  codex_by_type-RoomIfFound f payload time line other = (refl, refl)

  -- What holds of what a Codex record finds, when it is added, holds after the record.
  pub codex_step-Holds :
      (P : FormatParse → Type 0) (f : FormatParse) (line : ℕ) (fs : Fields)
      → ((g : FormatParse) (x : Option Found × FormatParse)
          → Kept f g
          → RoomIfFound g x
          → Holds P (add_found str_of tool_calls_json loads parse_timestamp line x))
      → Holds P (codex_step str_of tool_calls_json loads parse_timestamp f (line, fs))
  unfolding codex_step codex_record
  codex_step-Holds P f line fs h =
      let t = time_of str_of tool_calls_json loads parse_timestamp fs in
      let g = note_timestamp t f in
      then-Holds (RoomIfFound g) P
        (codex_by_type str_of tool_calls_json loads parse_timestamp g (fields_of (payload_of fs)) t
          line (record_type fs))
        (add_found str_of tool_calls_json loads parse_timestamp line)
        (codex_by_type-RoomIfFound g (fields_of (payload_of fs)) t line (record_type fs))
        (λ x. h g x (note-Kept t f))

  pub claude_step-Holds :
      (P : FormatParse → Type 0) (f : FormatParse) (line : ℕ) (fs : Fields)
      → P f
      → ((x : Found × FormatParse) → Room f x → Holds P (add line x.0 x.1))
      → Holds P (claude_step str_of tool_calls_json loads parse_timestamp f (line, fs))
  unfolding claude_step
  claude_step-Holds P f line fs p h = elim (Bool-cases (is_claude_type (record_type fs))) [
    | inl claude ↦ rw claude (
        then-Holds (Room f) P (claude_record str_of tool_calls_json loads parse_timestamp f fs line)
          (add_claude str_of tool_calls_json loads parse_timestamp line)
          (claude_record-Room f fs line) h)
    | inr other ↦ rw other p
  ]
