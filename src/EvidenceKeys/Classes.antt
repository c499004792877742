-- ===== src/EvidenceKeys/Classes.antt =====
-- Kinds of keys: `classify` of app/services/evidence_store/keys.py.
use ai_agent_first_trust_por.Prelude.{
  ℕ, ◌≤◌, Bool, true, false, ◌&&◌, Option, none, some, List, ◌≡◌, refl, ◌∙◌, arith, ◌==◌, any, all,
  length, take, drop, if◌then◌else◌, Option-cases, inl, inr,
}
use ai_agent_first_trust_por.Auth.Header.{codes, starts_with}
use ai_agent_first_trust_por.Schedule.{split_all}
use ai_agent_first_trust_por.EvidenceKeys.{
  is_control, stored_key, Problem, key_problem, byte_length, is_bad_segment, is_session_char,
  decision_log, unmapped, has_problem, classify, classify_clean, decision_log_match, session_of,
  strip_suffix, is_real_time, classify_document, unmapped_key, matches_shape, is_pentest,
  pentest_evidence, document_kind_in, document_prefixes,
}

control-problem :
    (key : List ℕ) → any is_control key ≡ true → (p : Problem) × (key_problem key ≡ some p)
unfolding key_problem
control-problem key h = elim (Option-cases (key_problem key)) [
  | inl e ↦ absurd (ground arith)
  | inr (p, e) ↦ (p, e)
]

-- A key that is recorded escaped is of no kind.
pub escaped-unmapped :
    (key : List ℕ)
    → (stored_key key).1 ≡ true
    → (p : Problem) × (classify key ≡ unmapped (has_problem p))
unfolding stored_key classify
escaped-unmapped key h =
    let (p, e) = control-problem key (ground arith) in (p, rw (classify, e) refl)

-- A clean relative path, as the store asks for it.
abbrev pub IsClean : List ℕ → Type 0
IsClean key =
    (byte_length key ≤ 1024)
    × (any is_control key ≡ false)
    × (any (λ c. c == 92) key ≡ false)
    × (any is_bad_segment (split_all 47 key) ≡ false)

no_problem-IsClean : (key : List ℕ) → key_problem key ≡ none → IsClean key
unfolding key_problem
no_problem-IsClean key h = ground arith

session_sound :
    (o : Option (List ℕ)) (session : List ℕ)
    → session_of o ≡ some session
    → (o ≡ some session)
      × (1 ≤ length session)
      × (length session ≤ 100)
      × (all is_session_char session ≡ true)
unfolding session_of
session_sound o session h = ground arith

guarded_sound :
    (a b c : Bool) (o : Option (List ℕ)) (session : List ℕ)
    → (if a && b && c then session_of o else none) ≡ some session
    → (a ≡ true) × (c ≡ true) × (session_of o ≡ some session)
guarded_sound a b c o session h = ground arith

match_sound :
    (extension key session : List ℕ)
    → decision_log_match extension key ≡ some session
    → (starts_with key (codes "decision-logs/") ≡ true)
      × (is_real_time (take 18 (drop 14 key)) ≡ true)
      × (strip_suffix extension (drop 33 key) ≡ some session)
      × (1 ≤ length session)
      × (length session ≤ 100)
      × (all is_session_char session ≡ true)
unfolding decision_log_match
match_sound extension key session h =
    let (under, real, found) =
      guarded_sound (starts_with key (codes "decision-logs/"))
        (matches_shape (codes "0000-00-00T000000Z_") (take 19 (drop 14 key)))
        (is_real_time (take 18 (drop 14 key))) (strip_suffix extension (drop 33 key)) session h in
    let (o, a, b, c) = session_sound (strip_suffix extension (drop 33 key)) session found in
    (under, real, o, a, b, c)

other_kind :
    (key session : List ℕ)
    → (if is_pentest key
        then pentest_evidence
        else classify_document (document_kind_in document_prefixes key) key)
      ≡ decision_log session
    → ⊥
unfolding classify_document unmapped_key
other_kind key session h = ground arith

clean-decision_log :
    (key session : List ℕ)
    → classify_clean key ≡ decision_log session
    → decision_log_match (codes ".jsonl") key ≡ some session
unfolding classify_clean classify_document unmapped_key
clean-decision_log key session h = elim (Option-cases (decision_log_match (codes ".jsonl") key)) [
  | inr (found, e) ↦ e ∙ cc (rw (classify_clean, e) at h)
  | inl e ↦ elim (Option-cases (decision_log_match (codes ".meta.json") key)) [
    | inr (found, f) ↦ cc (rw f at (rw (classify_clean, e) at h))
    | inl f ↦ absurd (other_kind key session (rw f at (rw (classify_clean, e) at h)))
  ]
]

-- A key that is a decision log's is a clean relative path under `decision-logs/`, with a timestamp
-- that is a real time, and its session id is what stands before `.jsonl`: 1 to 100 characters, each
-- of them allowed.
pub decision_log_sound :
    (key session : List ℕ)
    → classify key ≡ decision_log session
    → IsClean key
      × (starts_with key (codes "decision-logs/") ≡ true)
      × (is_real_time (take 18 (drop 14 key)) ≡ true)
      × (strip_suffix (codes ".jsonl") (drop 33 key) ≡ some session)
      × (1 ≤ length session)
      × (length session ≤ 100)
      × (all is_session_char session ≡ true)
unfolding classify
decision_log_sound key session h = elim (Option-cases (key_problem key)) [
  | inr (p, e) ↦ cc (rw (classify, e) at h)
  | inl e ↦
      let (under, real, found, a, b, c) =
        match_sound (codes ".jsonl") key session
          (clean-decision_log key session (rw (classify, e) at h)) in
      (no_problem-IsClean key e, under, real, found, a, b, c)
]
