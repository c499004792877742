-- ===== src/Transcripts/Limits.antt =====
-- The limits of app/services/transcript_ingest.py hold of what is parsed.
use ai_agent_first_trust_por.Prelude.{
  ℕ, ◌+◌, ◌≤◌, ◌<◌, false, ◌&&◌, Option, none, some, List, [], ◌∷◌, ◌++◌, ◌≡◌, refl, sym, ap, ◌∙◌,
  subst, arith, ltb, length, length-append, Bool-cases, inl, inr,
}
use ai_agent_first_trust_por.DecisionLogs.Store.{Text}
use ai_agent_first_trust_por.EvidenceKeys.{byte_length}
use ai_agent_first_trust_por.Transcripts.Json.{Json, Items, Loaded, is_object}
use ai_agent_first_trust_por.Transcripts.Records.{
  Problem, Result, ok, raised, Found, Entry, FormatParse, new_parse, add, stored_size, appended,
  none_if_empty, text_of, max_transcript_entries, max_tool_calls_bytes,
  max_transcript_tool_calls_bytes,
}
use ai_agent_first_trust_por.Transcripts.Formats.{payload_of}
use ai_agent_first_trust_por.Transcripts.Parse.{
  Line, Numbered, Agent, claude_code, codex_agent, Transcript, codex_step, claude_step,
  parse_transcript, add_found, labelled,
}
use ai_agent_first_trust_por.Transcripts.Detected.{
  Records, codex_all, claude_all, unless_stopped, parse_as, parse_transcript-detected,
  detect_agent_type, records_of,
}
use ai_agent_first_trust_por.Transcripts.Steps.{
  Holds, then-Holds, Kept, RoomIfFound, codex_step-Holds, claude_step-Holds,
}

abbrev pub size_of : Entry → ℕ
size_of e = stored_size e.tool_calls

abbrev pub total_size : List Entry → ℕ
total_size [] = 0
total_size (e ∷ es) = size_of e + total_size es

abbrev pub AllWithin : List Entry → Type 0
AllWithin [] = Unit {0}
AllWithin (e ∷ es) = (size_of e ≤ max_tool_calls_bytes) × AllWithin es

pub record IsWithin (f : FormatParse) : Type 0 where
  pub entries : length f.entries ≤ max_transcript_entries
  pub each : AllWithin f.entries
  pub counted : f.tool_calls_total ≡ total_size f.entries
  pub total : f.tool_calls_total ≤ max_transcript_tool_calls_bytes

new-IsWithin : IsWithin new_parse
new-IsWithin = record { entries = omega arith; each = tt; counted = refl; total = omega arith }

Kept-IsWithin : (f g : FormatParse) → Kept f g → IsWithin f → IsWithin g
Kept-IsWithin f g (e, t) w = record {
  entries = rw e w.entries;
  each = rw e w.each;
  counted = t ∙ w.counted ∙ ap total_size (sym e);
  total = rw t w.total;
}

total_size-append :
    (es : List Entry) (e : Entry) → total_size (es ++ e ∷ []) ≡ total_size es + size_of e
total_size-append [] e = omega arith
total_size-append (x ∷ es) e = omega (arith, total_size-append es e)

AllWithin-append :
    (es : List Entry) (e : Entry)
    → AllWithin es
    → size_of e ≤ max_tool_calls_bytes
    → AllWithin (es ++ e ∷ [])
AllWithin-append [] e a h = (h, tt)
AllWithin-append (x ∷ es) e (p, a) h = (p, AllWithin-append es e a h)

none_if_empty-size : (s : Text) → byte_length (text_of (none_if_empty s)) ≡ byte_length s
none_if_empty-size [] = refl
none_if_empty-size (c ∷ s) = refl

appended-IsWithin :
    (e : Found) (f : FormatParse) (n : ℕ)
    → IsWithin f
    → length f.entries < max_transcript_entries
    → n ≡ stored_size e.tool_calls
    → n ≤ max_tool_calls_bytes
    → f.tool_calls_total + n ≤ max_transcript_tool_calls_bytes
    → IsWithin (appended e f (f.tool_calls_total + n))
appended-IsWithin e f n w room size each total =
    let s = none_if_empty-size (text_of e.tool_calls) in
    record {
      entries = rw (length-append f.entries (_ ∷ [])) (omega (arith, room));
      each = AllWithin-append f.entries _ w.each (omega (arith, s, size, each));
      counted = omega (arith, w.counted, s, size, total_size-append f.entries _);
      total = total;
    }

within_of : (n m : ℕ) → (ltb 0 n && ltb m n) ≡ false → n ≤ m
within_of n m h = ground arith

total_of : (t n m : ℕ) → t ≤ m → (ltb 0 n && ltb m (t + n)) ≡ false → t + n ≤ m
total_of t n m w h = ground arith

add-IsWithin :
    (line : ℕ) (e : Found) (f : FormatParse)
    → IsWithin f
    → length f.entries < max_transcript_entries
    → Holds IsWithin (add line e f)
unfolding add
add-IsWithin line e f w room =
    let n = stored_size e.tool_calls in
    elim (Bool-cases (ltb 0 n && ltb max_tool_calls_bytes n)) [
      | inl large ↦ rw large tt
      | inr small ↦
          elim (Bool-cases
            (ltb 0 n && ltb max_transcript_tool_calls_bytes (f.tool_calls_total + n))) [
              | inl over ↦ rw small (rw over tt)
              | inr fits ↦ rw small (
                  rw fits (
                    appended-IsWithin e f n w room refl (within_of n _ small)
                      (total_of _ n _ w.total fits)))
            ]
    ]

module _ (str_of : Json → Text) (tool_calls_json : Items → Text) (loads : Text → Loaded)
    (parse_timestamp : Json → Option ℕ) where
  found-IsWithin :
      (f : FormatParse) (line : ℕ) (x : Option Found × FormatParse)
      → IsWithin f
      → RoomIfFound f x
      → Holds IsWithin (add_found str_of tool_calls_json loads parse_timestamp line x)
  found-IsWithin f line (none, g) w k = Kept-IsWithin f g k w
  found-IsWithin f line (some e, g) w (k, room) =
      add-IsWithin line e g (Kept-IsWithin f g k w) (let k0 = k.0 in rw k0 room)

  codex_step-IsWithin :
      (f : FormatParse) (r : Numbered)
      → IsWithin f
      → Holds IsWithin (codex_step str_of tool_calls_json loads parse_timestamp f r)
  codex_step-IsWithin f (line, fs) w =
      codex_step-Holds str_of tool_calls_json loads parse_timestamp IsWithin f line fs
        (λ g x k. found-IsWithin g line x (Kept-IsWithin f g k w))

  claude_step-IsWithin :
      (f : FormatParse) (r : Numbered)
      → IsWithin f
      → Holds IsWithin (claude_step str_of tool_calls_json loads parse_timestamp f r)
  claude_step-IsWithin f (line, fs) w =
      claude_step-Holds str_of tool_calls_json loads parse_timestamp IsWithin f line fs w
        (λ x k. add-IsWithin line x.0 x.1 (Kept-IsWithin f x.1 k.0 w) (let k0 = k.0.0 in rw k0 k.1))

  codex_all-IsWithin :
      (f : FormatParse) (rs : List Numbered)
      → IsWithin f
      → Holds IsWithin (codex_all str_of tool_calls_json loads parse_timestamp f rs)
  unfolding codex_all
  codex_all-IsWithin f [] w = w
  codex_all-IsWithin f (r ∷ rs) w = elim (Bool-cases (is_object (payload_of r.1))) [
    | inl inside ↦ rw inside (
        then-Holds IsWithin IsWithin (codex_step str_of tool_calls_json loads parse_timestamp f r)
          (λ g. codex_all str_of tool_calls_json loads parse_timestamp g rs)
          (codex_step-IsWithin f r w) (λ g. codex_all-IsWithin g rs))
    | inr outside ↦ rw outside (codex_all-IsWithin f rs w)
  ]

  claude_all-IsWithin :
      (rs : List Numbered) (c : Result FormatParse)
      → Holds IsWithin c
      → Holds IsWithin (claude_all str_of tool_calls_json loads parse_timestamp c rs)
  unfolding claude_all
  claude_all-IsWithin [] c w = w
  claude_all-IsWithin (r ∷ rs) c w = claude_all-IsWithin rs _ (
      then-Holds IsWithin IsWithin c
        (λ f. claude_step str_of tool_calls_json loads parse_timestamp f r) w
        (λ f. claude_step-IsWithin f r))

  unless_stopped-Holds :
      (o : Option Problem) (r : Result FormatParse)
      → Holds IsWithin r
      → Holds IsWithin (unless_stopped o r)
  unless_stopped-Holds none r h = h
  unless_stopped-Holds (some e) r h = tt

  parse_as-IsWithin :
      (agent : Agent) (rs : Records)
      → Holds IsWithin
          (parse_as str_of tool_calls_json loads parse_timestamp agent (ok new_parse) new_parse rs)
  parse_as-IsWithin codex_agent rs =
      then-Holds IsWithin IsWithin
        (codex_all str_of tool_calls_json loads parse_timestamp new_parse rs.records)
        (λ g. unless_stopped rs.stop (ok g)) (codex_all-IsWithin new_parse rs.records new-IsWithin)
        (λ g. unless_stopped-Holds rs.stop (ok g))
  parse_as-IsWithin claude_code rs =
      unless_stopped-Holds rs.stop _ (claude_all-IsWithin rs.records (ok new_parse) new-IsWithin)

  labelled-Holds :
      (agent : Agent) (r : Result FormatParse)
      → Holds IsWithin r
      → Holds (λ (t : Transcript). IsWithin t.parse) (labelled agent r)
  labelled-Holds agent (ok f) h = h
  labelled-Holds agent (raised e) h = tt

  -- A transcript that is parsed is within the limits: at most 50,000 entries, at most 8 MiB of tool
  -- calls in each and at most 32 MiB in all, as they are stored, which is what the parse has counted.
  pub parse_transcript-IsWithin :
      (ls : List Line) (t : Transcript)
      → parse_transcript str_of tool_calls_json loads parse_timestamp ls ≡ ok t
      → IsWithin t.parse
  parse_transcript-IsWithin ls t e =
      let rs = records_of str_of tool_calls_json loads parse_timestamp 1 ls in
      let agent = detect_agent_type rs.records in
      subst (Holds (λ (u : Transcript). IsWithin u.parse))
        (sym (parse_transcript-detected str_of tool_calls_json loads parse_timestamp ls) ∙ e)
        (labelled-Holds agent _ (parse_as-IsWithin agent rs))
