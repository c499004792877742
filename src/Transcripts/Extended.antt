-- ===== src/Transcripts/Extended.antt =====
-- A transcript that goes on: what app/services/transcript_ingest.py parses of a longer one extends
-- what it parses of its beginning.
use ai_agent_first_trust_por.Prelude.{
  ℕ, suc, ◌+◌, Option, none, some, List, [], ◌∷◌, ◌++◌, ◌≡◌, ◌≢◌, refl, sym, ap, ◌∙◌, subst, arith,
  append-nil, append_assoc, if◌then◌else◌, ltb, ◌&&◌, Bool-cases, inl, inr,
}
use ai_agent_first_trust_por.DecisionLogs.Store.{Text}
use ai_agent_first_trust_por.DecisionLogs.AppendOnly.{Extends}
use ai_agent_first_trust_por.Transcripts.Json.{Json, Items, Loaded, is_object}
use ai_agent_first_trust_por.Transcripts.Records.{
  Problem, Result, ok, raised, ◌>>=◌, Found, FormatParse, new_parse, add, max_tool_calls_bytes,
  max_transcript_tool_calls_bytes, stored_size, Entry, entry_of,
}
use ai_agent_first_trust_por.Transcripts.Formats.{payload_of}
use ai_agent_first_trust_por.Transcripts.Parse.{
  Line, Read, skips, stops, reads, Numbered, Agent, claude_code, codex_agent, Transcript, read_line,
  codex_step, claude_step, parse_transcript, add_found, labelled,
}
use ai_agent_first_trust_por.Transcripts.Detected.{
  Records, after_read, codex_all, claude_all, unless_stopped, parse_as, parse_transcript-detected,
  detect_agent_type, records_of,
}
use ai_agent_first_trust_por.Transcripts.Steps.{
  Holds, then-Holds, Kept, RoomIfFound, codex_step-Holds, claude_step-Holds,
}

-- The entries of the second parse extend those of the first.
abbrev pub Grows : FormatParse → FormatParse → Type 0
Grows f g = Extends f.entries g.entries

Grows-trans : (f g h : FormatParse) → Grows f g → Grows g h → Grows f h
Grows-trans f g h (xs, p) (ys, q) = (xs ++ ys, q ∙ rw p (append_assoc f.entries xs ys))

Kept-Grows : (f g : FormatParse) → Kept f g → Grows f g
Kept-Grows f g k = ([], k.0 ∙ sym (append-nil f.entries))

-- What is added goes behind the entries of a parse that kept those of `f`.
add-Grows : (line : ℕ) (e : Found) (f g : FormatParse) → Kept f g → Holds (Grows f) (add line e g)
unfolding add
add-Grows line e f g k =
    let n = stored_size e.tool_calls in
    elim (Bool-cases (ltb 0 n && ltb max_tool_calls_bytes n)) [
      | inl large ↦ rw large tt
      | inr small ↦
          elim (Bool-cases
            (ltb 0 n && ltb max_transcript_tool_calls_bytes (g.tool_calls_total + n))) [
              | inl over ↦ rw small (rw over tt)
              | inr fits ↦
                  rw small
                    (rw fits (entry_of e ∷ [], ap (λ (es : List Entry). es ++ entry_of e ∷ []) k.0))
            ]
    ]

then-Grows :
    (f g : FormatParse) (m : Result FormatParse) → Grows f g → Holds (Grows g) m → Holds (Grows f) m
then-Grows f g (ok h) p q = Grows-trans f g h p q
then-Grows f g (raised e) p q = tt

bind-ok :
    (m : Result FormatParse) (f : FormatParse → Result FormatParse) (g : FormatParse)
    → (m >>= f) ≡ ok g
    → (h : FormatParse) × (m ≡ ok h) × (f h ≡ ok g)
bind-ok (ok h) f g e = (h, refl, e)
bind-ok (raised p) f g e = cc

unless_stopped-ok :
    (o : Option Problem) (r : Result FormatParse) (g : FormatParse)
    → unless_stopped o r ≡ ok g
    → (o ≡ none) × (r ≡ ok g)
unless_stopped-ok none r g e = (refl, e)
unless_stopped-ok (some p) r g e = cc

labelled-ok :
    (agent : Agent) (r : Result FormatParse) (u : Transcript)
    → labelled agent r ≡ ok u
    → (r ≡ ok u.parse) × (agent ≡ u.agent_type)
labelled-ok agent (ok f) u e = (ground arith, ground arith)
labelled-ok agent (raised p) u e = cc

module _ (str_of : Json → Text) (tool_calls_json : Items → Text) (loads : Text → Loaded)
    (parse_timestamp : Json → Option ℕ) where
  found-Grows :
      (line : ℕ) (f g : FormatParse) (x : Option Found × FormatParse)
      → Kept f g
      → RoomIfFound g x
      → Holds (Grows f) (add_found str_of tool_calls_json loads parse_timestamp line x)
  found-Grows line f g (none, h) k r = Kept-Grows f h (r.0 ∙ k.0, r.1 ∙ k.1)
  found-Grows line f g (some e, h) k (r, room) = add-Grows line e f h (r.0 ∙ k.0, r.1 ∙ k.1)

  codex_step-Grows :
      (f : FormatParse) (r : Numbered)
      → Holds (Grows f) (codex_step str_of tool_calls_json loads parse_timestamp f r)
  codex_step-Grows f (line, fs) =
      codex_step-Holds str_of tool_calls_json loads parse_timestamp (Grows f) f line fs
        (λ g x. found-Grows line f g x)

  claude_step-Grows :
      (f : FormatParse) (r : Numbered)
      → Holds (Grows f) (claude_step str_of tool_calls_json loads parse_timestamp f r)
  claude_step-Grows f (line, fs) =
      claude_step-Holds str_of tool_calls_json loads parse_timestamp (Grows f) f line fs
        (Kept-Grows f f (refl, refl)) (λ x k. add-Grows line x.0 f x.1 k.0)

  codex_all-Grows :
      (rs : List Numbered) (f : FormatParse)
      → Holds (Grows f) (codex_all str_of tool_calls_json loads parse_timestamp f rs)
  unfolding codex_all
  codex_all-Grows [] f = Kept-Grows f f (refl, refl)
  codex_all-Grows (r ∷ rs) f = elim (Bool-cases (is_object (payload_of r.1))) [
    | inl inside ↦ rw inside (
        then-Holds (Grows f) (Grows f) (codex_step str_of tool_calls_json loads parse_timestamp f r)
          (λ g. codex_all str_of tool_calls_json loads parse_timestamp g rs) (codex_step-Grows f r)
          (λ g grown.
            then-Grows f g (codex_all str_of tool_calls_json loads parse_timestamp g rs) grown
              (codex_all-Grows rs g)))
    | inr outside ↦ rw outside (codex_all-Grows rs f)
  ]

  claude_all-raised :
      (rs : List Numbered) (p : Problem) (g : FormatParse)
      → claude_all str_of tool_calls_json loads parse_timestamp (raised p) rs ≢ ok g
  unfolding claude_all
  claude_all-raised [] p g e = cc
  claude_all-raised (r ∷ rs) p g e = claude_all-raised rs p g e

  claude_all-Grows :
      (rs : List Numbered) (f g : FormatParse)
      → claude_all str_of tool_calls_json loads parse_timestamp (ok f) rs ≡ ok g
      → Grows f g
  unfolding claude_all
  claude_all-Grows [] f g e = subst (Holds (Grows f)) e (Kept-Grows f f (refl, refl))
  claude_all-Grows (r ∷ rs) f g e =
      by (claude_step str_of tool_calls_json loads parse_timestamp f r) (claude_step-Grows f r)
        (λ h. claude_all-Grows rs h g) e
    where
      by :
          (m : Result FormatParse)
          → Holds (Grows f) m
          → ((h : FormatParse)
              → claude_all str_of tool_calls_json loads parse_timestamp (ok h) rs ≡ ok g
              → Grows h g)
          → claude_all str_of tool_calls_json loads parse_timestamp m rs ≡ ok g
          → Grows f g
      by (ok h) grown ih q = Grows-trans f h g grown (ih h q)
      by (raised p) grown ih q = absurd (claude_all-raised rs p g q)

  -- What a parse of the first records gives, if that of all of them gives `g`.
  abbrev Begun : Result FormatParse → FormatParse → Type 0
  Begun m g = (h : FormatParse) × (m ≡ ok h) × Grows h g

  claude_all-Begun :
      (rs qs : List Numbered) (c : Result FormatParse) (g : FormatParse)
      → claude_all str_of tool_calls_json loads parse_timestamp c (rs ++ qs) ≡ ok g
      → Begun (claude_all str_of tool_calls_json loads parse_timestamp c rs) g
  unfolding claude_all
  claude_all-Begun [] qs (ok f) g e = (f, refl, claude_all-Grows qs f g e)
  claude_all-Begun [] qs (raised p) g e = absurd (claude_all-raised qs p g e)
  claude_all-Begun (r ∷ rs) qs c g e =
      claude_all-Begun rs qs
        (c >>= (λ f. claude_step str_of tool_calls_json loads parse_timestamp f r)) g e

  codex_all-Begun :
      (rs qs : List Numbered) (f g : FormatParse)
      → codex_all str_of tool_calls_json loads parse_timestamp f (rs ++ qs) ≡ ok g
      → Begun (codex_all str_of tool_calls_json loads parse_timestamp f rs) g
  unfolding codex_all
  codex_all-Begun [] qs f g e = (f, refl, subst (Holds (Grows f)) e (codex_all-Grows qs f))
  codex_all-Begun (r ∷ rs) qs f g e =
      by
        (if is_object (payload_of r.1)
          then codex_step str_of tool_calls_json loads parse_timestamp f r
          else ok f)
        (λ h. codex_all-Begun rs qs h g) e
    where
      by :
          (m : Result FormatParse)
          → ((h : FormatParse)
              → codex_all str_of tool_calls_json loads parse_timestamp h (rs ++ qs) ≡ ok g
              → Begun (codex_all str_of tool_calls_json loads parse_timestamp h rs) g)
          → (m >>= (λ h. codex_all str_of tool_calls_json loads parse_timestamp h (rs ++ qs)))
            ≡ ok g
          → Begun (m >>= (λ h. codex_all str_of tool_calls_json loads parse_timestamp h rs)) g
      by (ok h) ih q = ih h q
      by (raised p) ih q = cc

  abbrev records : ℕ → List Line → Records
  records line ls = records_of str_of tool_calls_json loads parse_timestamp line ls

  -- The records of the longer transcript go on after those of its beginning.
  abbrev GoesOn : Records → Records → Type 0
  GoesOn rs all_rs = (rs.stop ≡ none) × ((qs : List Numbered) × (all_rs.records ≡ rs.records ++ qs))

  records-GoesOn :
      (ls ms : List Line) (line : ℕ)
      → (records line (ls ++ ms)).stop ≡ none
      → GoesOn (records line ls) (records line (ls ++ ms))
  unfolding records_of
  records-GoesOn [] ms line e = (refl, ((records line ms).records, refl))
  records-GoesOn (l ∷ ls) ms line e =
      by (read_line str_of tool_calls_json loads parse_timestamp line l)
        (records-GoesOn ls ms (suc line)) e
    where
      by :
          (r : Read)
          → ((records (suc line) (ls ++ ms)).stop ≡ none
              → GoesOn (records (suc line) ls) (records (suc line) (ls ++ ms)))
          → (after_read str_of tool_calls_json loads parse_timestamp line r
              (records (suc line) (ls ++ ms))).stop
            ≡ none
          → GoesOn
              (after_read str_of tool_calls_json loads parse_timestamp line r
                (records (suc line) ls))
              (after_read str_of tool_calls_json loads parse_timestamp line r
                (records (suc line) (ls ++ ms)))
      by skips ih q = ih q
      by (stops p) ih q = cc
      by (reads fs) ih q =
          let (s, (qs, more)) = ih q in (s, (qs, ap (λ (rs : List Numbered). (line, fs) ∷ rs) more))

  parse_as-Begun :
      (agent : Agent) (ls ms : List Line) (g : FormatParse)
      → parse_as str_of tool_calls_json loads parse_timestamp agent
          (ok new_parse)
          new_parse
          (records 1 (ls ++ ms))
        ≡ ok g
      → Begun
          (parse_as str_of tool_calls_json loads parse_timestamp agent
            (ok new_parse)
            new_parse
            (records 1 ls))
          g
  parse_as-Begun claude_code ls ms g e =
      let (whole, parsed) = unless_stopped-ok _ _ g e in
      let (stop, (qs, more)) = records-GoesOn ls ms 1 whole in
      let b = claude_all-Begun (records 1 ls).records qs (ok new_parse) g (rw more at parsed) in
      rw stop b
  parse_as-Begun codex_agent ls ms g e =
      let (h, parsed, rest) =
        bind-ok
          (codex_all str_of tool_calls_json loads parse_timestamp new_parse
            (records 1 (ls ++ ms)).records)
          (λ h. unless_stopped (records 1 (ls ++ ms)).stop (ok h)) g e in
      let (whole, same) = unless_stopped-ok _ _ g rest in
      let (stop, (qs, more)) = records-GoesOn ls ms 1 whole in
      let (f, begun, grown) = codex_all-Begun (records 1 ls).records qs new_parse g (
        subst
          (λ (rs : List Numbered).
            codex_all str_of tool_calls_json loads parse_timestamp new_parse rs ≡ ok g)
          more (parsed ∙ same)) in
      (f, rw stop (rw begun refl), grown)

  -- Where a transcript is parsed and its first lines are of the same format by themselves, those lines
  -- are parsed too, and the entries of the whole transcript are theirs, in their order, and more behind
  -- them.
  pub parse_transcript-extends :
      (ls ms : List Line) (u : Transcript)
      → parse_transcript str_of tool_calls_json loads parse_timestamp (ls ++ ms) ≡ ok u
      → detect_agent_type (records_of str_of tool_calls_json loads parse_timestamp 1 ls).records
        ≡ u.agent_type
      → (t : Transcript) × (parse_transcript str_of tool_calls_json loads parse_timestamp ls ≡ ok t)
        × Extends t.parse.entries u.parse.entries
  parse_transcript-extends ls ms u e same =
      let (parsed, agent) = labelled-ok (detect_agent_type (records 1 (ls ++ ms)).records) _ u (
        sym (parse_transcript-detected str_of tool_calls_json loads parse_timestamp (ls ++ ms))
        ∙ e) in
      let (f, begun, grown) = parse_as-Begun u.agent_type ls ms u.parse (
        subst
          (λ (a : Agent).
            parse_as str_of tool_calls_json loads parse_timestamp a (ok new_parse) new_parse
              (records 1 (ls ++ ms))
            ≡ ok u.parse)
          agent parsed) in
      (
        record { agent_type = u.agent_type; parse = f },
        parse_transcript-detected str_of tool_calls_json loads parse_timestamp ls
            ∙ rw same (rw begun refl),
        grown,
      )
