-- ===== src/DecisionLogs/AppendOnly.antt =====
-- What an import of app/services/evidence_import_decision_logs.py never takes away.
use ai_agent_first_trust_por.Prelude.{
  ℕ, false, Option, none, List, [], ◌++◌, ◌≡◌, sym, ◌∙◌, String, arith, append-nil, map, drop,
}
use ai_agent_first_trust_por.DecisionLogs.Store.{Stored, Upload, Version, Reason}
use ai_agent_first_trust_por.DecisionLogs.Writes.{
  Codec, create, extend, baseline, backfill, record_rejected,
}
use ai_agent_first_trust_por.DecisionLogs.Import.{Outcome, is_system, import}
use ai_agent_first_trust_por.DecisionLogs.Effects.{
  Effect, keeps, rejects, creates, extends, adopts, baselines, backfills, import-Effect, comparison,
}

-- the second list goes on where the first ends
abbrev pub Extends {ℓ} : {A : Type ℓ} → List A → List A → Type ℓ
Extends {A} xs ys = (zs : List A) × (ys ≡ xs ++ zs)

abbrev same_list {ℓ} : {A : Type ℓ} (xs ys : List A) → ys ≡ xs → Extends xs ys
same_list xs ys e = ([], e ∙ sym (append-nil xs))

module _ (k : Codec) (u : Upload) (db : Stored) where
  pub record_rejected-entries :
      (sha : _) (n : ℕ) (reason : Reason)
      → (record_rejected k u sha n reason db).entries ≡ db.entries
  unfolding record_rejected
  record_rejected-entries sha n reason = ground arith

  Effect-appends :
      (r : Outcome × Stored)
      → is_system k u.authority ≡ false
      → Effect k u db r
      → Extends db.entries r.1.entries
  unfolding create extend baseline backfill
  Effect-appends r other (keeps e no_store) = same_list db.entries r.1.entries (rw e)
  Effect-appends r other (rejects s reason n found new no_store refused e) =
      same_list db.entries r.1.entries (rw e (record_rejected-entries _ n reason))
  Effect-appends r other (creates p absent parsed e) = (p.entries, rw e)
  Effect-appends r other (extends p s m agree lt may e) =
      (drop (comparison k u p db).stored p.entries, rw e)
  Effect-appends r other (adopts p s m source wins e) = cc
  Effect-appends r other (baselines p s m no_store agree same fresh e) =
      same_list db.entries r.1.entries (rw e)
  Effect-appends r other (backfills p s m no_store settled unset e) =
      same_list db.entries r.1.entries (rw e)

-- An import without the system's authority (an upload of a member or an admin, or an export of the
-- evidence store) leaves every stored entry as it is and in its place; it can only append entries.
pub import-appends :
    (k : Codec) (u : Upload) (db : Stored)
    → is_system k u.authority ≡ false
    → Extends db.entries (import k u none db).1.entries
import-appends k u db other = Effect-appends k u db _ other (import-Effect k u db)

abbrev pub digests : List Version → List (Option String)
digests vs = map (λ v. v.content_sha256) vs
