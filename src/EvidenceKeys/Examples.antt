-- ===== src/EvidenceKeys/Examples.antt =====
-- Keys, to which the results on app/services/evidence_store/keys.py are applied.
use ai_agent_first_trust_por.Prelude.{ℕ, true, List, [], ◌∷◌, ◌≡◌, refl}
use ai_agent_first_trust_por.Auth.Header.{codes, starts_with, same_text}
use ai_agent_first_trust_por.Schedule.{split_all}
use ai_agent_first_trust_por.EvidenceKeys.{
  stored_key, raw_key, key_problem, is_real_time, classify, decision_log, decision_log_match,
  matches_shape,
}
use ai_agent_first_trust_por.EvidenceKeys.RoundTrip.{raw_key-stored_key}

-- a key with a newline and a percent sign
abbrev odd : List ℕ
odd = 97 ∷ 10 ∷ 37 ∷ []

raw_key-stored_key_example : raw_key (stored_key odd).0 (stored_key odd).1 ≡ odd
raw_key-stored_key_example = raw_key-stored_key odd

odd-escaped : (stored_key odd).1 ≡ true
unfolding stored_key
odd-escaped = refl

abbrev log_key : List ℕ
log_key = codes "decision-logs/2024-02-29T235959Z_a.b-1.jsonl"

log_key-classified : classify log_key ≡ decision_log (codes "a.b-1")
unfolding classify key_problem same_text starts_with split_all decision_log_match matches_shape
    is_real_time
log_key-classified = refl
