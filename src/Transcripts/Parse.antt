-- ===== src/Transcripts/Parse.antt =====
-- `_lines`, `_check_line_depth` and `parse_transcript` of app/services/transcript_ingest.py. A line is
-- its size in bytes and its stripped text, as they are split and decoded.
use ai_agent_first_trust_por.Prelude.{
  ℕ, suc, Bool, true, false, ◌&&◌, ◌||◌, Option, none, some, List, [], ◌∷◌, ltb, ◌==◌, length,
  if◌then◌else◌,
}
use ai_agent_first_trust_por.RequestLimits.{Verdict, passes, check_json_limits}
use ai_agent_first_trust_por.DecisionLogs.Store.{Text}
use ai_agent_first_trust_por.Transcripts.Json.{
  Json, object, Items, Fields, Loaded, loaded, not_json, load_error, is_object, fields_of,
}
use ai_agent_first_trust_por.Transcripts.Records.{
  Problem, line_too_large, nested_too_deeply, load_failure, Result, ok, raised, ◌>>=◌, Found,
  FormatParse, new_parse, note_timestamp, max_entry_bytes, add,
}
use ai_agent_first_trust_por.Transcripts.Formats.{
  record_type, is_claude_type, payload_of, is_codex_record, time_of, claude_record, codex_record,
}

pub record Line : Type 0 where
  pub size : ℕ
  pub text : Text

-- `MAX_LINE_DEPTH`
abbrev pub max_line_depth : ℕ
max_line_depth = 64

-- `line.count("[") + line.count("{")`
openers : Text → ℕ
openers [] = 0
openers (c ∷ s) = let rest = openers s in if c == 91 || c == 123 then suc rest else rest

abbrev is_refused : Verdict → Bool
is_refused passes = false
is_refused _ = true

-- whether `_check_line_depth` refuses a line, and the test before it
unfoldable pub is_too_deep : Text → Bool
unfolding openers
is_too_deep s =
    ltb max_line_depth (length s)
    && (ltb max_line_depth (openers s) && is_refused (check_json_limits s max_line_depth none))

-- what the body of the loop of `parse_transcript` does with a line before it looks at the record
pub data Read : Type 0 where
  skips : Read
  stops : Problem → Read
  reads : Fields → Read

abbrev pub Numbered : Type 0
Numbered = ℕ × Fields

-- the two parses of the loop: that of Claude Code records, its first error, or none once a Codex record
-- was seen; and that of Codex records
pub record Parses : Type 0 where
  pub claude : Option (Result FormatParse)
  pub codex : FormatParse

abbrev pub start : Parses
start = record { claude = some (ok new_parse); codex = new_parse }

pub data Agent : Type 0 where
  claude_code codex_agent : Agent

-- a `ParsedTranscript` and its agent
pub record Transcript : Type 0 where
  pub agent_type : Agent
  pub parse : FormatParse

abbrev pub labelled : Agent → Result FormatParse → Result Transcript
labelled agent r = r >>= (λ f. ok (record { agent_type = agent; parse = f }))

-- the statements after the loop
abbrev pub finish : Parses → Result Transcript
finish s = elim s.claude [
  | none ↦ labelled codex_agent (ok s.codex)
  | some c ↦ labelled claude_code c
]

unfoldable pub loaded_line : ℕ → Loaded → Read
loaded_line line (loaded (object fs)) = reads fs
loaded_line line (loaded v) = skips
loaded_line line not_json = skips
loaded_line line load_error = stops (load_failure line)

module _ (str_of : Json → Text) (tool_calls_json : Items → Text) (loads : Text → Loaded)
    (parse_timestamp : Json → Option ℕ) where
  unfoldable pub read_text : ℕ → Text → Read
  read_text line [] = skips
  read_text line (c ∷ s) =
      if is_too_deep (c ∷ s)
      then stops (nested_too_deeply line)
      else loaded_line line (loads (c ∷ s))

  unfoldable pub read_line : ℕ → Line → Read
  read_line line l =
      if ltb max_entry_bytes l.size
      then stops (line_too_large line l.size)
      else read_text line l.text

  abbrev pub add_found : ℕ → Option Found × FormatParse → Result FormatParse
  add_found line (none, f) = ok f
  add_found line (some e, f) = add line e f

  -- `_codex_record` of a record whose payload is an object, and `add`
  unfoldable pub codex_step : FormatParse → Numbered → Result FormatParse
  codex_step f (line, fs) =
      codex_record str_of tool_calls_json loads parse_timestamp f fs (fields_of (payload_of fs))
        line
      >>= add_found line

  abbrev pub add_claude : ℕ → Found × FormatParse → Result FormatParse
  add_claude line (e, f) = add line e f

  -- `_claude_record` of a user's or an assistant's record, and `add`
  unfoldable pub claude_step : FormatParse → Numbered → Result FormatParse
  claude_step f (line, fs) =
      if is_claude_type (record_type fs)
      then claude_record str_of tool_calls_json loads parse_timestamp f fs line >>= add_claude line
      else ok f

  abbrev to_codex : Result FormatParse → Result Parses
  to_codex r = r >>= (λ f. ok (record { claude = none; codex = f }))

  abbrev both : Result FormatParse → FormatParse → Numbered → Result Parses
  both c f r = ok (record { claude = some (c >>= (λ p. claude_step p r)); codex = f })

  unfoldable pub step_of : Option (Result FormatParse) → FormatParse → Numbered → Result Parses
  step_of none f (line, fs) =
      if is_object (payload_of fs)
      then to_codex (codex_step f (line, fs))
      else ok (record { claude = none; codex = f })
  step_of (some c) f (line, fs) =
      if is_codex_record fs
      then to_codex (codex_step f (line, fs))
      else if is_object (payload_of fs)
      then both c (note_timestamp (time_of str_of tool_calls_json loads parse_timestamp fs) f)
          (line, fs)
      else both c f (line, fs)

  -- the body of the loop of `parse_transcript`, for a record
  abbrev pub record_step : Parses → Numbered → Result Parses
  record_step s r = step_of s.claude s.codex r

  abbrev pub read_step : Parses → ℕ → Read → Result Parses
  read_step s line skips = ok s
  read_step s line (stops e) = raised e
  read_step s line (reads fs) = record_step s (line, fs)

  -- the loop of `parse_transcript`
  unfoldable pub parse_lines : Parses → ℕ → List Line → Result Parses
  parse_lines s line [] = ok s
  parse_lines s line (l ∷ ls) =
      read_step s line (read_line line l) >>= (λ next. parse_lines next (suc line) ls)

  unfoldable pub parse_transcript : List Line → Result Transcript
  parse_transcript ls = parse_lines start 1 ls >>= finish
