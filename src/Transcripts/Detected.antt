-- ===== src/Transcripts/Detected.antt =====
-- The one pass of `parse_transcript` in app/services/transcript_ingest.py against two passes: one that
-- detects the format (`detect_agent_type`), and one that parses in it.
use ai_agent_first_trust_por.Prelude.{
  ℕ, suc, true, false, Option, none, some, List, [], ◌∷◌, ◌≡◌, refl, sym, ap, ◌∙◌, arith, any,
  if◌then◌else◌, Bool-cases, inl, inr,
}
use ai_agent_first_trust_por.DecisionLogs.Store.{Text}
use ai_agent_first_trust_por.Transcripts.Json.{Json, Items, Fields, Loaded, is_object, fields_of}
use ai_agent_first_trust_por.Transcripts.Records.{
  Problem, Result, ok, raised, ◌>>=◌, FormatParse, new_parse, note_timestamp,
}
use ai_agent_first_trust_por.Transcripts.Formats.{
  RecordType, is_codex_type, record_type, payload_of, is_codex_record, time_of, codex_record,
  codex_by_type, session_meta, turn_context, response_item,
}
use ai_agent_first_trust_por.Transcripts.Parse.{
  Line, Read, skips, stops, reads, Numbered, Parses, Agent, claude_code, codex_agent, Transcript,
  read_line, codex_step, claude_step, step_of, read_step, parse_lines, labelled, finish,
  parse_transcript,
}

-- the records of a transcript, by their lines, up to the line that stops it, if one does
pub record Records : Type 0 where
  pub records : List Numbered
  pub stop : Option Problem

abbrev first_record : Numbered → Records → Records
first_record r rs = record rs { records = r ∷ rs.records }

-- `detect_agent_type`
unfoldable pub detect_agent_type : List Numbered → Agent
detect_agent_type rs =
    if any (λ (r : Numbered). is_codex_record r.1) rs then codex_agent else claude_code

abbrev pub unless_stopped {ℓ} : {A : Type ℓ} → Option Problem → Result A → Result A
unless_stopped none r = r
unless_stopped (some e) r = raised e

module _ (str_of : Json → Text) (tool_calls_json : Items → Text) (loads : Text → Loaded)
    (parse_timestamp : Json → Option ℕ) where
  abbrev pub after_read : ℕ → Read → Records → Records
  after_read line skips rs = rs
  after_read line (stops e) rs = record { records = []; stop = some e }
  after_read line (reads fs) rs = first_record (line, fs) rs

  unfoldable pub records_of : ℕ → List Line → Records
  records_of line [] = record { records = []; stop = none }
  records_of line (l ∷ ls) =
      after_read line (read_line str_of tool_calls_json loads parse_timestamp line l)
        (records_of (suc line) ls)

  abbrev codex_one : FormatParse → Numbered → Result FormatParse
  codex_one f r =
      if is_object (payload_of r.1)
      then codex_step str_of tool_calls_json loads parse_timestamp f r
      else ok f

  -- every record with an object as its payload is a Codex record
  unfoldable pub codex_all : FormatParse → List Numbered → Result FormatParse
  codex_all f [] = ok f
  codex_all f (r ∷ rs) = codex_one f r >>= (λ g. codex_all g rs)

  unfoldable pub claude_all : Result FormatParse → List Numbered → Result FormatParse
  claude_all c [] = c
  claude_all c (r ∷ rs) =
      claude_all (c >>= (λ f. claude_step str_of tool_calls_json loads parse_timestamp f r)) rs

  -- a Codex rollout is refused by its first error, a Claude Code transcript by a line that stops it
  -- before an error of a record
  abbrev pub parse_as : Agent → Result FormatParse → FormatParse → Records → Result FormatParse
  parse_as codex_agent c f rs = codex_all f rs.records >>= (λ g. unless_stopped rs.stop (ok g))
  parse_as claude_code c f rs = unless_stopped rs.stop (claude_all c rs.records)

  abbrev run : Parses → ℕ → List Line → Result Transcript
  run s line ls = parse_lines str_of tool_calls_json loads parse_timestamp s line ls >>= finish

  abbrev codex_parses : FormatParse → Parses
  codex_parses f = record { claude = none; codex = f }

  codex_by_type-plain :
      (f : FormatParse) (payload : Fields) (time : Option ℕ) (line : ℕ) (t : RecordType)
      → is_codex_type t ≡ false
      → codex_by_type str_of tool_calls_json loads parse_timestamp f payload time line t
        ≡ ok (none, f)
  unfolding codex_by_type
  codex_by_type-plain f payload time line session_meta h = cc
  codex_by_type-plain f payload time line turn_context h = cc
  codex_by_type-plain f payload time line response_item h = cc
  codex_by_type-plain f payload time line other h = refl

  -- A record that is not a Codex one only notes its time in a Codex parse.
  codex_step-plain :
      (f : FormatParse) (line : ℕ) (fs : Fields)
      → is_codex_record fs ≡ false
      → is_object (payload_of fs) ≡ true
      → codex_step str_of tool_calls_json loads parse_timestamp f (line, fs)
        ≡ ok (note_timestamp (time_of str_of tool_calls_json loads parse_timestamp fs) f)
  unfolding codex_step codex_record is_codex_record
  codex_step-plain f line fs plain inside =
      let p : is_codex_type (record_type fs) ≡ false = ground arith in
      let e =
        codex_by_type-plain
          (note_timestamp (time_of str_of tool_calls_json loads parse_timestamp fs) f)
          (fields_of (payload_of fs)) (time_of str_of tool_calls_json loads parse_timestamp fs) line
          (record_type fs) p in
      rw e refl

  -- the rest of the loop after a step, and the statements after it
  abbrev rest : Result Parses → ℕ → List Line → Result Transcript
  rest r line ls =
      (r >>= (λ next. parse_lines str_of tool_calls_json loads parse_timestamp next line ls))
      >>= finish

  abbrev RunsCodex : ℕ → List Line → Type 0
  RunsCodex line ls =
      (f : FormatParse)
      → run (codex_parses f) line ls
        ≡ labelled codex_agent (parse_as codex_agent (ok f) f (records_of line ls))

  codex_result :
      (m : Result FormatParse) (line : ℕ) (ls : List Line)
      → RunsCodex line ls
      → rest (m >>= (λ g. ok (codex_parses g))) line ls
        ≡ labelled codex_agent (
            (m >>= (λ g. codex_all g (records_of line ls).records))
            >>= (λ g. unless_stopped (records_of line ls).stop (ok g)))
  codex_result (ok g) line ls ih = ih g
  codex_result (raised e) line ls ih = refl

  codex_read :
      (r : Read) (f : FormatParse) (line : ℕ) (ls : List Line)
      → RunsCodex (suc line) ls
      → rest
          (read_step str_of tool_calls_json loads parse_timestamp (codex_parses f) line r)
          (suc line)
          ls
        ≡ labelled codex_agent
            (parse_as codex_agent (ok f) f (after_read line r (records_of (suc line) ls)))
  unfolding codex_all step_of
  codex_read skips f line ls ih = ih f
  codex_read (stops e) f line ls ih = refl
  codex_read (reads fs) f line ls ih = elim (Bool-cases (is_object (payload_of fs))) [
    | inl inside ↦ rw inside (
        codex_result (codex_step str_of tool_calls_json loads parse_timestamp f (line, fs))
          (suc line) ls ih)
    | inr outside ↦ rw outside (ih f)
  ]

  -- A parse that has seen a Codex record goes on as a Codex parse.
  run-codex_all : (line : ℕ) (ls : List Line) → RunsCodex line ls
  unfolding parse_lines records_of codex_all
  run-codex_all line [] f = refl
  run-codex_all line (l ∷ ls) f =
      codex_read (read_line str_of tool_calls_json loads parse_timestamp line l) f line ls
        (run-codex_all (suc line) ls)

  abbrev agent_of : Records → Agent
  agent_of rs = detect_agent_type rs.records

  abbrev Detects : ℕ → List Line → Type 0
  Detects line ls =
      (c : Result FormatParse) (f : FormatParse)
      → let rs = records_of line ls in
        run (record { claude = some c; codex = f }) line ls
        ≡ labelled (agent_of rs) (parse_as (agent_of rs) c f rs)

  -- Before a Codex record, a record leaves what is left to parse the same in either format.
  parse_as-plain :
      (agent : Agent) (c : Result FormatParse) (f : FormatParse) (line : ℕ) (fs : Fields)
      (rs : Records)
      → is_codex_record fs ≡ false
      → is_object (payload_of fs) ≡ true
      → parse_as agent c f (first_record (line, fs) rs)
        ≡ parse_as agent
            (c >>= (λ p. claude_step str_of tool_calls_json loads parse_timestamp p (line, fs)))
            (note_timestamp (time_of str_of tool_calls_json loads parse_timestamp fs) f)
            rs
  unfolding codex_all claude_all
  parse_as-plain codex_agent c f line fs rs plain inside =
      let e = codex_step-plain f line fs plain inside in rw inside (rw e refl)
  parse_as-plain claude_code c f line fs rs plain inside = refl

  parse_as-outside :
      (agent : Agent) (c : Result FormatParse) (f : FormatParse) (line : ℕ) (fs : Fields)
      (rs : Records)
      → is_object (payload_of fs) ≡ false
      → parse_as agent c f (first_record (line, fs) rs)
        ≡ parse_as agent
            (c >>= (λ p. claude_step str_of tool_calls_json loads parse_timestamp p (line, fs)))
            f
            rs
  unfolding codex_all claude_all
  parse_as-outside codex_agent c f line fs rs outside = rw outside refl
  parse_as-outside claude_code c f line fs rs outside = refl

  codex-inside : (fs : Fields) → is_codex_record fs ≡ true → is_object (payload_of fs) ≡ true
  unfolding is_codex_record
  codex-inside fs h = ground arith

  abbrev both_parses : Result FormatParse → FormatParse → Parses
  both_parses c f = record { claude = some c; codex = f }

  plain_read :
      (fs : Fields) (c : Result FormatParse) (f : FormatParse) (line : ℕ) (ls : List Line)
      → is_codex_record fs ≡ false
      → Detects (suc line) ls
      → let rs = first_record (line, fs) (records_of (suc line) ls) in
        rest
          (read_step str_of tool_calls_json loads parse_timestamp (both_parses c f) line (reads fs))
          (suc line)
          ls
        ≡ labelled (agent_of rs) (parse_as (agent_of rs) c f rs)
  unfolding step_of detect_agent_type
  plain_read fs c f line ls plain ih = elim (Bool-cases (is_object (payload_of fs))) [
    | inl inside ↦ rw inside (
        rw plain (
          ih _ _
          ∙ ap (labelled _)
              (sym (parse_as-plain _ c f line fs (records_of (suc line) ls) plain inside))))
    | inr outside ↦ rw outside (
        rw plain (
          ih _ _
          ∙ ap (labelled _)
              (sym (parse_as-outside _ c f line fs (records_of (suc line) ls) outside))))
  ]

  detected_read :
      (r : Read) (c : Result FormatParse) (f : FormatParse) (line : ℕ) (ls : List Line)
      → Detects (suc line) ls
      → let rs = after_read line r (records_of (suc line) ls) in
        rest
          (read_step str_of tool_calls_json loads parse_timestamp (both_parses c f) line r)
          (suc line)
          ls
        ≡ labelled (agent_of rs) (parse_as (agent_of rs) c f rs)
  unfolding step_of detect_agent_type codex_all
  detected_read skips c f line ls ih = ih c f
  detected_read (stops e) c f line ls ih = refl
  detected_read (reads fs) c f line ls ih = elim (Bool-cases (is_codex_record fs)) [
    | inl codex ↦
        let inside = codex-inside fs codex in
        rw codex (
          rw inside (
            codex_result (codex_step str_of tool_calls_json loads parse_timestamp f (line, fs))
              (suc line) ls (run-codex_all (suc line) ls)))
    | inr plain ↦ plain_read fs c f line ls plain ih
  ]

  run-detected : (line : ℕ) (ls : List Line) → Detects line ls
  unfolding parse_lines records_of detect_agent_type claude_all
  run-detected line [] c f = refl
  run-detected line (l ∷ ls) c f =
      detected_read (read_line str_of tool_calls_json loads parse_timestamp line l) c f line ls
        (run-detected (suc line) ls)

  -- The one pass over a transcript, which parses it in both formats until a Codex record decides, gives
  -- what two passes give: the first reads the records up to a line that is too large, nested too
  -- deeply or cannot be loaded, and detects the format among them; the second parses them in that
  -- format, and raises the error that the code's order of errors names first.
  pub parse_transcript-detected :
      (ls : List Line)
      → let rs = records_of 1 ls in
        let agent = detect_agent_type rs.records in
        parse_transcript str_of tool_calls_json loads parse_timestamp ls
        ≡ labelled agent (parse_as agent (ok new_parse) new_parse rs)
  unfolding parse_transcript
  parse_transcript-detected ls = run-detected 1 ls (ok new_parse) new_parse
