-- ===== src/DecisionLogs/Accepted.antt =====
-- What is stored when app/services/evidence_import_decision_logs.py answers that an export was stored.
use ai_agent_first_trust_por.Prelude.{
  ℕ, ◌≤◌, ◌<◌, false, true, none, some, List, [], ◌++◌, ◌≡◌, refl, sym, ◌∙◌, arith, subst, length,
  take, drop, take-all,
}
use ai_agent_first_trust_por.DecisionLogs.Entries.{Entry}
use ai_agent_first_trust_por.DecisionLogs.Compared.{first_difference, agreed}
use ai_agent_first_trust_por.DecisionLogs.Agreement.{
  agreed-of_shorter, joined-first_difference, joined-length,
}
use ai_agent_first_trust_por.DecisionLogs.Store.{Parsed, Stored, Upload}
use ai_agent_first_trust_por.DecisionLogs.Writes.{Codec, create, extend, adopt, conflict_cut}
use ai_agent_first_trust_por.DecisionLogs.Import.{Outcome, import, parsed_or}
use ai_agent_first_trust_por.DecisionLogs.Effects.{
  Effect, keeps, rejects, creates, extends, adopts, baselines, backfills, import-Effect, comparison,
  stores,
}
use ai_agent_first_trust_por.DecisionLogs.Joined.{
  comparison-stored, comparison-difference, cut-agreed,
}

-- The entries are the export's, in number and, each compared as the import compares them, one by one.
abbrev pub Holds : Codec → Parsed → List Entry → Type 0
Holds k p es = (length es ≡ length p.entries) × (first_difference k.reencode es p.entries ≡ none)

module _ (k : Codec) (u : Upload) (p : Parsed) (db : Stored) where
  joined-Holds :
      (n : ℕ)
      → agreed k.reencode db.entries p.entries ≡ n
      → Holds k p (take n db.entries ++ drop n p.entries)
  joined-Holds n a = (
    joined-length k.reencode n db.entries p.entries (omega arith),
    joined-first_difference k.reencode n db.entries p.entries (omega arith),
  )

  extended-Holds :
      (comparison k u p db).difference ≡ none
      → (comparison k u p db).stored < length p.entries
      → Holds k p (db.entries ++ drop (comparison k u p db).stored p.entries)
  extended-Holds agree lt =
      let n : length db.entries ≤ length p.entries = omega (arith, comparison-stored k u p db) in
      let a : agreed k.reencode db.entries p.entries ≡ length db.entries =
        agreed-of_shorter k.reencode db.entries p.entries
          (sym (comparison-difference k u p db) ∙ agree) n in
      let all : take (length db.entries) db.entries ≡ db.entries =
        take-all (length db.entries) db.entries (omega arith) in
      subst (λ (m : ℕ). Holds k p (db.entries ++ drop m p.entries))
        (sym (comparison-stored k u p db)) (rw all at (joined-Holds (length db.entries) a))

module _ (k : Codec) (u : Upload) (db : Stored) where
  Effect-stores :
      (r : Outcome × Stored) (p : Parsed)
      → (db.session ≡ none → db.entries ≡ [])
      → parsed_or k u u.preparsed ≡ some p
      → u.dry_run ≡ false
      → stores r.0 ≡ true
      → Effect k u db r
      → Holds k p r.1.entries
  unfolding create extend adopt agreed
  Effect-stores r p clear q wet st (keeps e no_store) =
      let h : stores r.0 ≡ false = no_store wet in cc
  Effect-stores r p clear q wet st (rejects s reason n found new no_store refused e) = cc
  Effect-stores r p clear q wet st (creates p' absent parsed e) =
      let same : p' ≡ p = cc in
      rw e (rw (clear absent) (rw same (joined-Holds k u p (record db { entries = [] }) 0 refl)))
  Effect-stores r p clear q wet st (extends p' s m agree lt may e) =
      let same : p' ≡ p = cc (m.parsed) in
      rw e (
        subst
          (λ (x : Parsed). Holds k x (db.entries ++ drop (comparison k u p' db).stored p'.entries))
          same (extended-Holds k u p' db agree lt))
  Effect-stores r p clear q wet st (adopts p' s m source wins e) =
      let same : p' ≡ p = cc (m.parsed) in
      rw e (
        subst
          (λ (x : Parsed). Holds k x (
            take (conflict_cut k p' (comparison k u p' db)) db.entries
            ++ drop (conflict_cut k p' (comparison k u p' db)) p'.entries))
          same (joined-Holds k u p' db _ (cut-agreed k u p' db s wins)))
  Effect-stores r p clear q wet st (baselines p' s m no_store agree same fresh e) = cc
  Effect-stores r p clear q wet st (backfills p' s m no_store settled unset e) = cc

-- Where the import, not a dry run, answers `created` or `replaced`, the stored entries are exactly
-- the export's, in number and order and each equal to the export's as the import compares entries.
pub import-stores :
    (k : Codec) (u : Upload) (db : Stored) (p : Parsed)
    → (db.session ≡ none → db.entries ≡ [])
    → parsed_or k u u.preparsed ≡ some p
    → u.dry_run ≡ false
    → stores (import k u none db).0 ≡ true
    → Holds k p (import k u none db).1.entries
import-stores k u db p clear q wet st =
    Effect-stores k u db _ p clear q wet st (import-Effect k u db)
