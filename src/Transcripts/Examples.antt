-- ===== src/Transcripts/Examples.antt =====
-- A transcript of one and of two records of a user: the results on
-- app/services/transcript_ingest.py at concrete inputs.
use ai_agent_first_trust_por.Prelude.{
  ℕ, true, none, some, Option, [], ◌∷◌, ◌≡◌, refl, if◌then◌else◌,
}
use ai_agent_first_trust_por.Auth.Header.{codes, same_text, lower}
use ai_agent_first_trust_por.DecisionLogs.Store.{Text, clean_text}
use ai_agent_first_trust_por.DecisionLogs.AppendOnly.{Extends}
use ai_agent_first_trust_por.Transcripts.Json.{
  Json, string, object, Items, field, no_fields, Loaded, loaded, not_json, lookup, extract_text,
  extract_tool_calls,
}
use ai_agent_first_trust_por.Transcripts.Records.{
  check_room, string_field, note_timestamp, add, is_done, ok, new_parse, Entry,
}
use ai_agent_first_trust_por.Transcripts.Formats.{
  is_codex_record, type_of, claude_record, claude_fields, fill,
}
use ai_agent_first_trust_por.Transcripts.Parse.{
  Line, Transcript, claude_code, labelled, parse_transcript, parse_lines, read_line, read_text,
  is_too_deep, loaded_line, step_of, claude_step,
}
use ai_agent_first_trust_por.Transcripts.Detected.{
  detect_agent_type, records_of, parse_as, parse_transcript-detected,
}
use ai_agent_first_trust_por.Transcripts.Limits.{IsWithin, parse_transcript-IsWithin}
use ai_agent_first_trust_por.Transcripts.Extended.{parse_transcript-extends}

abbrev no_text : Json → Text
no_text v = []

abbrev no_calls : Items → Text
no_calls vs = []

abbrev no_time : Json → Option ℕ
no_time v = none

abbrev user_record : Json
user_record = object (
    field (codes "type") (string (codes "user")) (
      field (codes "message") (object (field (codes "content") (string (codes "done.")) no_fields))
        no_fields))

-- the text `u` is the record of a user, and no other text is JSON
abbrev loads : Text → Loaded
loads s = if same_text s (codes "u") then loaded user_record else not_json

abbrev u_line : Line
u_line = record { size = 1; text = codes "u" }

abbrev x_line : Line
x_line = record { size = 1; text = codes "x" }

abbrev done_entry : Entry
done_entry = record {
  role = some (codes "user");
  content_text = some (codes "done.");
  tool_calls = none;
  timestamp = none;
  message_id = none;
  is_verification = true;
}

abbrev one_entry : Transcript
one_entry = record {
  agent_type = claude_code;
  parse = record new_parse { entries = done_entry ∷ [] };
}

abbrev two_entries : Transcript
two_entries = record {
  agent_type = claude_code;
  parse = record new_parse { entries = done_entry ∷ done_entry ∷ [] };
}

two_parsed :
    parse_transcript no_text no_calls loads no_time (u_line ∷ x_line ∷ u_line ∷ []) ≡ ok two_entries
unfolding parse_transcript parse_lines read_line read_text is_too_deep loaded_line same_text step_of
    is_codex_record type_of lookup claude_step claude_record check_room claude_fields string_field
    clean_text fill extract_text extract_tool_calls note_timestamp add is_done lower
two_parsed = refl

parse_transcript-detected_example :
    let rs = records_of no_text no_calls loads no_time 1 (u_line ∷ x_line ∷ []) in
    let agent = detect_agent_type rs.records in
    parse_transcript no_text no_calls loads no_time (u_line ∷ x_line ∷ [])
    ≡ labelled agent (parse_as no_text no_calls loads no_time agent (ok new_parse) new_parse rs)
parse_transcript-detected_example =
    parse_transcript-detected no_text no_calls loads no_time (u_line ∷ x_line ∷ [])

parse_transcript-IsWithin_example : IsWithin two_entries.parse
parse_transcript-IsWithin_example =
    parse_transcript-IsWithin no_text no_calls loads no_time (u_line ∷ x_line ∷ u_line ∷ [])
      two_entries two_parsed

parse_transcript-extends_example :
    (t : Transcript) × (parse_transcript no_text no_calls loads no_time (u_line ∷ []) ≡ ok t)
    × Extends t.parse.entries two_entries.parse.entries
unfolding records_of detect_agent_type read_line read_text is_too_deep loaded_line same_text
    is_codex_record type_of lookup
parse_transcript-extends_example =
    parse_transcript-extends no_text no_calls loads no_time (u_line ∷ []) (x_line ∷ u_line ∷ [])
      two_entries two_parsed refl
