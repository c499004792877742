-- ===== src/DecisionLogs/DryRun.antt =====
-- A dry run of app/services/evidence_import_decision_logs.py decides what a real run does: the
-- verification of the evidence store derives the outcome of an import in this way.
use ai_agent_first_trust_por.Prelude.{ℕ, true, false, Option, none, some, ◌≡◌, refl, arith}
use ai_agent_first_trust_por.DecisionLogs.Entries.{Comparison}
use ai_agent_first_trust_por.DecisionLogs.Store.{Parsed, Session, Stored, Upload}
use ai_agent_first_trust_por.DecisionLogs.Writes.{Codec}
use ai_agent_first_trust_por.DecisionLogs.Import.{
  Outcome, reject, appended, longer, agreeing, compared, against, import_stored, import_new,
  import_for, import, parsed_or,
}

abbrev pub dry : Upload → Upload
dry u = record u { dry_run = true }

abbrev pub wet : Upload → Upload
wet u = record u { dry_run = false }

-- what a dry run answers, and that it writes nothing
abbrev pub Foretells : Outcome × Stored → Outcome × Stored → Stored → Type 0
Foretells d w db = d ≡ (w.0, db)

module _ (k : Codec) where
  module _ (u : Upload) (p : Parsed) (s : Session) (db : Stored) (c : Comparison) where
    dry-appended :
        (o : Option (ℕ × ℕ × ℕ))
        → Foretells (appended k (dry u) p s db c o) (appended k (wet u) p s db c o) db
    unfolding appended reject
    dry-appended none = refl
    dry-appended (some _) = refl

    dry-longer : Foretells (longer k (dry u) p s db c) (longer k (wet u) p s db c) db
    unfolding longer reject
    dry-longer = grind (arith, dry-appended)

    dry-agreeing : Foretells (agreeing k (dry u) p s db c) (agreeing k (wet u) p s db c) db
    unfolding agreeing
    dry-agreeing = ground (arith, dry-longer)

    dry-compared : Foretells (compared k (dry u) p s db c) (compared k (wet u) p s db c) db
    unfolding compared reject
    dry-compared = ground (arith, dry-agreeing)

  dry-against :
      (u : Upload) (s : Session) (db : Stored) (o : Option Parsed)
      → Foretells (against k (dry u) s db o) (against k (wet u) s db o) db
  unfolding against
  dry-against u s db none = refl
  dry-against u s db (some p) = dry-compared u p s db _

  dry-import_stored :
      (u : Upload) (o : Option Parsed) (s : Session) (db : Stored)
      → Foretells (import_stored k (dry u) o s db) (import_stored k (wet u) o s db) db
  unfolding import_stored
  dry-import_stored u o s db = ground (arith, dry-against u s db (parsed_or k u o))

  dry-import_new :
      (u : Upload) (db : Stored) (o : Option Parsed)
      → Foretells (import_new k (dry u) db none o) (import_new k (wet u) db none o) db
  unfolding import_new
  dry-import_new u db none = refl
  dry-import_new u db (some p) = refl

  dry-import_for :
      (u : Upload) (db : Stored) (o : Option Session)
      → Foretells (import_for k (dry u) none db o) (import_for k (wet u) none db o) db
  unfolding import_for
  dry-import_for u db none = dry-import_new u db (parsed_or k u u.preparsed)
  dry-import_for u db (some s) = dry-import_stored u u.preparsed s db

  -- A dry run writes nothing and answers with the outcome that a real run of the same upload has
  -- where no other transaction creates the session meanwhile.
  pub import-dry :
      (u : Upload) (db : Stored) → import k (dry u) none db ≡ ((import k (wet u) none db).0, db)
  unfolding import
  import-dry u db = dry-import_for u db db.session
