-- ===== src/DecisionLogs/Repository.antt =====
-- The entries that the evidence repository has supplied are never replaced, not even by the
-- repository: `_repository_wins` and `_adopt_repository_version` of
-- app/services/evidence_import_decision_logs.py.
use ai_agent_first_trust_por.Prelude.{ℕ, not, ◌&&◌, none, some, length, is_some, if◌then◌else◌}
use ai_agent_first_trust_por.DecisionLogs.Store.{Session, Stored, has_current_version}
use ai_agent_first_trust_por.DecisionLogs.Writes.{repository_entries}

-- How many leading entries the repository or the store has supplied: none of a session that was
-- restored and never baselined.
abbrev pub supplied_of : Session → Stored → ℕ
supplied_of s db =
    if not (is_some s.repository_entries) && not (has_current_version db.versions)
    then 0
    else repository_entries s (length db.entries)

abbrev pub supplied : Stored → ℕ
supplied db = elim db.session [ none ↦ 0 | some s ↦ supplied_of s db ]
