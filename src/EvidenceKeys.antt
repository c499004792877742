-- ===== src/EvidenceKeys.antt =====
-- The keys of app/services/evidence_store/keys.py, as lists of code points.
use ai_agent_first_trust_por.Prelude.{
  ℕ, zero, suc, ◌+◌, ◌-◌, ◌*◌, ◌/◌, ◌%◌, Bool, true, false, not, ◌&&◌, ◌||◌, Option, none, some,
  List, [], ◌∷◌, ◌++◌, ltb, leb, ◌==◌, length, take, drop, any, all, if◌then◌else◌,
}
use ai_agent_first_trust_por.Auth.Header.{codes, same_text, starts_with, lower}
use ai_agent_first_trust_por.Schedule.{split_all}
pub mod RoundTrip
pub mod Classes
mod Examples

-- `unicodedata.category(ch) == "Cc"`
abbrev pub is_control : ℕ → Bool
is_control c = ltb c 32 || (leb 127 c && leb c 159)

-- an upper-case hexadecimal digit, and its value
abbrev pub hex_digit : ℕ → ℕ
hex_digit n = if ltb n 10 then 48 + n else 55 + n

abbrev pub is_hex_digit : ℕ → Bool
is_hex_digit c = (leb 48 c && leb c 57) || (leb 65 c && leb c 70)

abbrev pub hex_value : ℕ → ℕ
hex_value c = if leb c 57 then c - 48 else c - 55

-- the join of `stored_key`; a control character has two hexadecimal digits
abbrev pub escapes : ℕ → Bool
escapes c = c == 37 || is_control c

unfoldable pub escape : List ℕ → List ℕ
escape [] = []
escape (c ∷ key) =
    let rest = escape key in
    if escapes c then 37 ∷ hex_digit (c / 16) ∷ hex_digit (c % 16) ∷ rest else c ∷ rest

unfoldable pub stored_key : List ℕ → List ℕ × Bool
stored_key key = if any is_control key then (escape key, true) else (key, false)

-- the character that two hexadecimal digits at the front encode, if they are there
unfoldable pub encoded : List ℕ → Option ℕ
encoded [] = none
encoded (a ∷ []) = none
encoded (a ∷ b ∷ s) =
    if is_hex_digit a && is_hex_digit b then some (16 * hex_value a + hex_value b) else none

-- `_ESCAPED_RE.sub` from the left; `skip` counts the characters of a match that are still to pass
unfoldable pub unescape : (skip : ℕ) → List ℕ → List ℕ
unescape skip [] = []
unescape (suc skip) (c ∷ s) = unescape skip s
unescape zero (c ∷ s) =
    let plain = unescape 0 s in
    let after = unescape 2 s in
    elim (if c == 37 then encoded s else none) [ none ↦ c ∷ plain | some d ↦ d ∷ after ]

unfoldable pub raw_key : List ℕ → Bool → List ℕ
raw_key key escaped = if escaped then unescape 0 key else key

-- what `key_problem` says
pub data Problem : Type 0 where
  empty too_long leading_slash backslash control_character bad_segment : Problem

-- the bytes of a code point in UTF-8, surrogates included
abbrev pub utf8_length : ℕ → ℕ
utf8_length c = if ltb c 128 then 1 else if ltb c 2048 then 2 else if ltb c 65536 then 3 else 4

abbrev pub byte_length : List ℕ → ℕ
byte_length [] = 0
byte_length (c ∷ s) = utf8_length c + byte_length s

abbrev pub is_bad_segment : List ℕ → Bool
is_bad_segment s = same_text s [] || (same_text s (codes ".") || same_text s (codes ".."))

unfoldable pub key_problem : List ℕ → Option Problem
key_problem key =
    if same_text key []
    then some empty
    else if ltb 1024 (byte_length key)
    then some too_long
    else if starts_with key (codes "/")
    then some leading_slash
    else if any (λ c. c == 92) key
    then some backslash
    else if any is_control key
    then some control_character
    else if any is_bad_segment (split_all 47 key)
    then some bad_segment
    else none

-- a text that ends with a suffix, without it
abbrev pub strip_suffix : List ℕ → List ℕ → Option (List ℕ)
strip_suffix suffix [] = if same_text [] suffix then some [] else none
strip_suffix suffix (c ∷ s) =
    let rest = strip_suffix suffix s in
    if same_text (c ∷ s) suffix then some [] else elim rest [ none ↦ none | some t ↦ some (c ∷ t) ]

abbrev pub is_digit : ℕ → Bool
is_digit c = leb 48 c && leb c 57

-- a run of decimal digits
abbrev pub number : List ℕ → ℕ
number s = value 0 s
  where
    value : ℕ → List ℕ → ℕ
    value acc [] = acc
    value acc (c ∷ s) = value (acc * 10 + (c - 48)) s

abbrev pub is_session_char : ℕ → Bool
is_session_char c =
    (leb 48 c && leb c 57)
    || (leb 65 c && leb c 90)
    || (leb 97 c && leb c 122)
    || c == 46
    || c == 95
    || c == 45

unfoldable pub matches_shape : List ℕ → List ℕ → Bool
matches_shape [] [] = true
-- `0` in a shape stands for a digit, every other character for itself
matches_shape (p ∷ shape) (c ∷ s) =
    (if p == 48 then is_digit c else p == c) && matches_shape shape s
matches_shape _ _ = false

abbrev pub leap_year : ℕ → Bool
leap_year y = y % 4 == 0 && (not (y % 100 == 0) || y % 400 == 0)

abbrev pub days_in_month : ℕ → ℕ → ℕ
days_in_month y m =
    if m == 2
    then (if leap_year y then 29 else 28)
    else if m == 4 || m == 6 || m == 9 || m == 11
    then 30
    else 31

-- `datetime.strptime(timestamp, "%Y-%m-%dT%H%M%SZ")` succeeds
unfoldable pub is_real_time : List ℕ → Bool
is_real_time t =
    let y = number (take 4 t) in
    let m = number (take 2 (drop 5 t)) in
    let d = number (take 2 (drop 8 t)) in
    leb 1 y
    && leb 1 m
    && leb m 12
    && leb 1 d
    && leb d (days_in_month y m)
    && leb (number (take 2 (drop 11 t))) 23
    && leb (number (take 2 (drop 13 t))) 59
    && leb (number (take 2 (drop 15 t))) 59

session_of : Option (List ℕ) → Option (List ℕ)
session_of none = none
session_of (some s) =
    if leb 1 (length s) && leb (length s) 100 && all is_session_char s then some s else none

-- `_decision_log_match` of a clean key: the session id between the timestamp and the extension
unfoldable pub decision_log_match : (extension : List ℕ) → List ℕ → Option (List ℕ)
unfolding session_of
decision_log_match extension key =
    if starts_with key (codes "decision-logs/")
      && matches_shape (codes "0000-00-00T000000Z_") (take 19 (drop 14 key))
      && is_real_time (take 18 (drop 14 key))
    then session_of (strip_suffix extension (drop 33 key))
    else none

pentest_name : Option (List ℕ) → Bool
pentest_name none = false
pentest_name (some s) = leb 1 (length s) && leb (length s) 200 && not (any (λ c. c == 47) s)

-- `PENTEST_RE`
unfoldable pub is_pentest : List ℕ → Bool
unfolding pentest_name
is_pentest key = starts_with key (codes "pentest-evidence/layer") && (elim (drop 22 key) [
  | [] ↦ false
  | c ∷ s ↦
      leb 49 c
      && leb c 57
      && starts_with s (codes "/")
      && pentest_name (strip_suffix (codes ".json") (drop 1 s))
])

-- `DOCUMENT_PREFIXES`
pub data DocumentKind : Type 0 where
  code_review pentest_report evidence_artifact : DocumentKind

abbrev pub document_prefixes : List (List ℕ × DocumentKind)
document_prefixes =
    (codes "codex-reviews/", code_review)
    ∷ (codes "pentest-reports/", pentest_report)
    ∷ (codes "evidence/artifacts/", evidence_artifact)
    ∷ []

document_kind_in : List (List ℕ × DocumentKind) → List ℕ → Option DocumentKind
document_kind_in [] key = none
document_kind_in (p ∷ ps) key =
    let rest = document_kind_in ps key in
    if starts_with key p.0 && ltb (length p.0) (length key) then some p.1 else rest

pub data Unmapped : Type 0 where
  has_problem : Problem → Unmapped
  not_a_decision_log not_pentest_evidence no_kind : Unmapped

-- `Classified`
pub data Classified : Type 0 where
  decision_log : (session_id : List ℕ) → Classified
  decision_log_sidecar pentest_evidence : Classified
  evidence_document : DocumentKind → Classified
  unmapped : Unmapped → Classified

unmapped_key : List ℕ → Classified
unmapped_key key =
    if starts_with key (codes "decision-logs/")
    then unmapped not_a_decision_log
    else if starts_with key (codes "pentest-evidence/")
    then unmapped not_pentest_evidence
    else unmapped no_kind

classify_document : Option DocumentKind → List ℕ → Classified
classify_document none key = unmapped_key key
classify_document (some k) key = evidence_document k

classify_clean : List ℕ → Classified
classify_clean key = elim (decision_log_match (codes ".jsonl") key) [
  | some session ↦ decision_log session
  | none ↦ elim (decision_log_match (codes ".meta.json") key) [
    | some _ ↦ decision_log_sidecar
    | none ↦
        if is_pentest key
        then pentest_evidence
        else classify_document (document_kind_in document_prefixes key) key
  ]
]

unfoldable pub classify : List ℕ → Classified
unfolding classify_clean classify_document unmapped_key document_kind_in
classify key = elim (key_problem key) [
  | some p ↦ unmapped (has_problem p)
  | none ↦ classify_clean key
]

-- `sidecar_key`
unfoldable pub sidecar_key : List ℕ → List ℕ
sidecar_key key = take (length key - 6) key ++ codes ".meta.json"

-- `document_title`
title_after : List (List ℕ × DocumentKind) → List ℕ → List ℕ
title_after [] key = take 500 key
title_after (p ∷ ps) key =
    let rest = title_after ps key in
    if starts_with key p.0 then take 500 (drop (length p.0) key) else rest

unfoldable pub document_title : List ℕ → List ℕ
unfolding title_after
document_title key = title_after document_prefixes key
