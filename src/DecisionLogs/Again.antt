-- ===== src/DecisionLogs/Again.antt =====
-- Importing the same export again: app/services/evidence_import_decision_logs.py.
use ai_agent_first_trust_por.Prelude.{
  ℕ, true, false, Option, none, some, List, [], ◌∷◌, ◌++◌, ◌≡◌, refl, ap, sym, ◌∙◌, arith,
  any-append, eq_refl, Bool-cases, inl, inr,
}
use ai_agent_first_trust_por.DecisionLogs.Entries.{Comparison}
use ai_agent_first_trust_por.DecisionLogs.Store.{
  Parsed, Session, Stored, Upload, Version, Reason, is_current, has_current_version, version,
  apply_session_fields, inserted_session,
}
use ai_agent_first_trust_por.DecisionLogs.Writes.{
  Codec, create, extend, adopt, baseline, backfill, record_rejected,
}
use ai_agent_first_trust_por.DecisionLogs.Import.{
  Outcome, sha_of, unbaselined, reject, appended, longer, agreeing, compared, against,
  import_stored, import_for, import, parsed_or,
}
use ai_agent_first_trust_por.DecisionLogs.Effects.{
  Effect, keeps, rejects, creates, extends, adopts, baselines, backfills, import-Effect, refuses,
  known_rejected,
}

module _ (k : Codec) (u : Upload) where
  -- An export whose digest the session has changes nothing, unless a baseline is wanting.
  known-stands :
      (s : Session) (db : Stored)
      → db.session ≡ some s
      → s.content_sha256 ≡ some (sha_of k u)
      → unbaselined k u db ≡ false
      → (import k u none db).1 ≡ db
  unfolding import import_for import_stored
  known-stands s db found sha settled = ground (arith, found, sha, settled, eq_refl (sha_of k u))

  -- A state whose session has the export's digest and which has a current version stays as it is.
  current-stands :
      (s : Session) (db : Stored) (vs : List Version) (v : Version)
      → db.session ≡ some s
      → s.content_sha256 ≡ some (sha_of k u)
      → db.versions ≡ vs ++ v ∷ []
      → is_current v ≡ true
      → (import k u none db).1 ≡ db
  unfolding has_current_version
  current-stands s db vs v found sha last cur =
      known-stands s db found sha (rw last (rw any-append (ground arith)))

  -- The outcome of a stage depends on the session, the entries and whether a version is current.
  module _ (db : Stored) (vs : List Version)
      (same : has_current_version vs ≡ has_current_version db.versions) where
    abbrev other : Stored
    other = record db { versions = vs }

    module _ (p : Parsed) (s : Session) (c : Comparison) where
      same_appended :
          (o : Option (ℕ × ℕ × ℕ)) → (appended k u p s other c o).0 ≡ (appended k u p s db c o).0
      unfolding appended reject
      same_appended none = refl
      same_appended (some _) = refl

      same_longer : (longer k u p s other c).0 ≡ (longer k u p s db c).0
      unfolding longer reject
      same_longer = grind (arith, same_appended)

      same_agreeing : (agreeing k u p s other c).0 ≡ (agreeing k u p s db c).0
      unfolding agreeing
      same_agreeing = ground (arith, same_longer)

      same_compared : (compared k u p s other c).0 ≡ (compared k u p s db c).0
      unfolding compared reject
      same_compared = ground (arith, same_agreeing)

    same_against :
        (s : Session) (o : Option Parsed) → (against k u s other o).0 ≡ (against k u s db o).0
    unfolding against
    same_against s none = refl
    same_against s (some p) = same_compared p s _

    same_import :
        (s : Session) → db.session ≡ some s → (import k u none other).0 ≡ (import k u none db).0
    unfolding import import_for import_stored
    same_import s found = ground (arith, same_against s (parsed_or k u u.preparsed))

  rejected-known :
      (db : Stored) (n : ℕ) (reason : Reason)
      → known_rejected k u (record_rejected k u (sha_of k u) n reason db) ≡ true
  unfolding record_rejected version
  rejected-known db n reason = elim (Bool-cases (known_rejected k u db)) [
    | inl known ↦ rw known known
    | inr new ↦ rw new (rw any-append (ground (arith, eq_refl (sha_of k u))))
  ]

  rejected-current :
      (db : Stored) (n : ℕ) (reason : Reason)
      → has_current_version (record_rejected k u (sha_of k u) n reason db).versions
        ≡ has_current_version db.versions
  unfolding record_rejected version has_current_version
  rejected-current db n reason = elim (Bool-cases (known_rejected k u db)) [
    | inl known ↦ rw known refl
    | inr new ↦ rw new (rw any-append (ground arith))
  ]

  rejected-only_versions :
      (db : Stored) (n : ℕ) (reason : Reason)
      → record_rejected k u (sha_of k u) n reason db
        ≡ record db { versions = (record_rejected k u (sha_of k u) n reason db).versions }
  unfolding record_rejected
  rejected-only_versions db n reason = ground arith

  -- A refused upload that is known changes nothing.
  refused-stands :
      (db : Stored) (s : Session) (r : Outcome × Stored)
      → db.session ≡ some s
      → known_rejected k u db ≡ true
      → refuses r.0 ≡ true
      → Effect k u db r
      → r.1 ≡ db
  refused-stands db s r found known ref (keeps e no_store) = e
  refused-stands db s r found known ref (rejects s' reason n f new no_store refused e) = cc
  refused-stands db s r found known ref (creates p absent parsed e) = cc
  refused-stands db s r found known ref (extends p s' m agree lt may e) = cc (m.accepted)
  refused-stands db s r found known ref (adopts p s' m source wins e) = cc (m.accepted)
  refused-stands db s r found known ref (baselines p s' m no_store agree same fresh e) =
      cc (m.accepted)
  refused-stands db s r found known ref (backfills p s' m no_store settled unset e) =
      cc (m.accepted)

  rejected-stands :
      (db : Stored) (s : Session) (n : ℕ) (reason : Reason)
      → db.session ≡ some s
      → refuses (import k u none db).0 ≡ true
      → let db' = record_rejected k u (sha_of k u) n reason db in (import k u none db').1 ≡ db'
  rejected-stands db s n reason found ref =
      let db' = record_rejected k u (sha_of k u) n reason db in
      let shape = rejected-only_versions db n reason in
      let found' : db'.session ≡ some s = ap (λ (x : Stored). x.session) shape ∙ found in
      let out : (import k u none db').0 ≡ (import k u none db).0 =
        ap (λ (x : Stored). (import k u none x).0) shape
        ∙ same_import db db'.versions (rejected-current db n reason) s found in
      refused-stands db' s (import k u none db') found' (rejected-known db n reason)
        (ap refuses out ∙ ref) (import-Effect k u db')

  Effect-again :
      (db : Stored) (r : Outcome × Stored)
      → r ≡ import k u none db
      → Effect k u db r
      → (import k u none r.1).1 ≡ r.1
  unfolding create extend adopt baseline version inserted_session apply_session_fields backfill
  Effect-again db r q (keeps e no_store) = rw e (ap (λ (x : Outcome × Stored). x.1) (sym q) ∙ e)
  Effect-again db r q (rejects s reason n found new no_store refused e) = rw e (
      rejected-stands db s n reason found
        (ap (λ (x : Outcome × Stored). refuses x.0) (sym q) ∙ refused))
  Effect-again db r q (creates p absent parsed e) =
      rw e (current-stands _ _ _ _ refl refl refl refl)
  Effect-again db r q (extends p s m agree lt may e) =
      rw e (current-stands _ _ _ _ refl refl refl refl)
  Effect-again db r q (adopts p s m source wins e) =
      rw e (current-stands _ _ _ _ refl refl refl refl)
  Effect-again db r q (baselines p s m no_store agree same fresh e) =
      rw e (current-stands _ _ _ _ refl refl refl refl)
  Effect-again db r q (backfills p s m no_store settled unset e) =
      rw e (known-stands _ _ refl refl settled)

-- An import of the same upload again changes nothing more, whatever the first one
-- did: created, extended, adopted or baselined the session, or recorded a rejected version.
pub import-again :
    (k : Codec) (u : Upload) (db : Stored)
    → (import k u none (import k u none db).1).1 ≡ (import k u none db).1
import-again k u db = Effect-again k u db _ refl (import-Effect k u db)
