-- ===== src/DecisionLogs/Effects.antt =====
-- The ways in which an import of app/services/evidence_import_decision_logs.py can end, each with the
-- tests that led to it. The results on imports are proved by cases on them.
use ai_agent_first_trust_por.Prelude.{
  ℕ, ◌<◌, Bool, true, false, not, ◌&&◌, Option, none, some, ◌≡◌, ◌⊎◌, refl, arith, Bool-cases,
  Option-cases, inl, inr, ltb, ◌==◌, ltb→lt, is_some, length, any, and-left, and-right,
  if◌then◌else◌,
}
use ai_agent_first_trust_por.DecisionLogs.Entries.{Comparison, eq_text, compare_with_stored}
use ai_agent_first_trust_por.DecisionLogs.Store.{
  Parsed, Session, Stored, Upload, Reason, is_source, is_rejected, has_current_version,
}
use ai_agent_first_trust_por.DecisionLogs.Writes.{
  Codec, repository_entries, create, extend, adopt, baseline, backfill, record_rejected,
}
use ai_agent_first_trust_por.DecisionLogs.Import.{
  Outcome, created, replaced, rejected, done, sha_of, unbaselined, is_system, may_extend,
  repository_wins, reject, appended, longer, agreeing, compared, against, import_stored, import_new,
  import_for, import, parsed_or, agent_of, is_backfill,
}

-- the statuses that say that the export was stored
abbrev pub stores : Outcome → Bool
stores (done r) = elim r.status [ created ↦ true | replaced ↦ true | _ ↦ false ]
stores _ = false

-- the status of an export that was refused
abbrev pub refuses : Outcome → Bool
refuses (done r) = elim r.status [ rejected ↦ true | _ ↦ false ]
refuses _ = false

abbrev pub known_rejected : Codec → Upload → Stored → Bool
known_rejected k u db =
    any (λ v. is_rejected v && eq_text v.content_sha256 (some (sha_of k u))) db.versions

module _ (k : Codec) (u : Upload) where
  abbrev pub comparison : Parsed → Stored → Comparison
  comparison p db = compare_with_stored k.sha256_hex k.canonical k.reencode db.entries p.entries

  -- what is known where an export is written to a stored session
  pub record Meets (p : Parsed) (s : Session) (db : Stored) (o : Outcome) : Type 0 where
    pub session : db.session ≡ some s
    pub parsed : parsed_or k u u.preparsed ≡ some p
    pub wet : u.dry_run ≡ false
    pub accepted : refuses o ≡ false

  pub data Effect (db : Stored) (r : Outcome × Stored) : Type 0 where
    keeps : r.1 ≡ db → (u.dry_run ≡ false → stores r.0 ≡ false) → Effect db r
    rejects :
        (s : Session) (reason : Reason) (n : ℕ)
        → db.session ≡ some s
        → known_rejected k u db ≡ false
        → stores r.0 ≡ false
        → refuses r.0 ≡ true
        → r.1 ≡ record_rejected k u (sha_of k u) n reason db
        → Effect db r
    creates :
        (p : Parsed)
        → db.session ≡ none
        → parsed_or k u u.preparsed ≡ some p
        → r.1
          ≡ create k u p
              (sha_of k u)
              (if is_source u.authority then length p.entries else 0)
              (agent_of k u p)
              db
        → Effect db r
    extends :
        (p : Parsed) (s : Session)
        → Meets p s db r.0
        → (comparison p db).difference ≡ none
        → (comparison p db).stored < length p.entries
        → (is_source u.authority ≡ true) ⊎ (repository_entries s (comparison p db).stored ≡ 0)
        → r.1 ≡ extend k u p (sha_of k u) (comparison p db) s db
        → Effect db r
    adopts :
        (p : Parsed) (s : Session)
        → Meets p s db r.0
        → is_system k u.authority ≡ true
        → repository_wins s (length p.entries) (comparison p db) (has_current_version db.versions)
          ≡ true
        → r.1 ≡ adopt k u p (sha_of k u) (comparison p db) s db
        → Effect db r
    baselines :
        (p : Parsed) (s : Session)
        → Meets p s db r.0
        → stores r.0 ≡ false
        → (comparison p db).difference ≡ none
        → length p.entries ≡ (comparison p db).stored
        → has_current_version db.versions ≡ false
        → r.1 ≡ baseline k u (sha_of k u) (comparison p db) s db
        → Effect db r
    backfills :
        (p : Parsed) (s : Session)
        → Meets p s db r.0
        → stores r.0 ≡ false
        → unbaselined k u db ≡ false
        → s.content_sha256 ≡ none
        → r.1 ≡ backfill k u (sha_of k u) (comparison p db) s db
        → Effect db r

  module _ (p : Parsed) (s : Session) (db : Stored) (e : db.session ≡ some s)
      (q : parsed_or k u u.preparsed ≡ some p) where
    abbrev c : Comparison
    c = comparison p db

    reject-Effect :
        (reason : Reason) (n : ℕ) (forbidden : Bool)
        → Effect db (reject k u p s db reason n forbidden)
    unfolding reject record_rejected
    reject-Effect reason n forbidden = elim (Bool-cases u.dry_run) [
      | inl dry ↦ keeps (rw dry) (λ _. refl)
      | inr wet ↦ elim (Bool-cases (known_rejected k u db)) [
        | inl known ↦ keeps (rw wet (rw known)) (λ _. refl)
        | inr new ↦ rejects s reason (length p.entries) e new refl refl (rw wet)
      ]
    ]

    extend-Effect :
        c.difference ≡ none
        → c.stored < length p.entries
        → (is_source u.authority ≡ true) ⊎ (repository_entries s c.stored ≡ 0)
        → (o : Option (ℕ × ℕ × ℕ)) → Effect db (appended k u p s db c o)
    unfolding appended
    extend-Effect d lt may (some (i, stamp, latest)) = reject-Effect _ c.stored false
    extend-Effect d lt may none = elim (Bool-cases u.dry_run) [
      | inl dry ↦ keeps (rw dry) (λ wet. cc)
      | inr wet ↦
          extends p s (record { session = e; parsed = q; wet = wet; accepted = refl }) d lt may
            (rw wet)
    ]

    longer-Effect :
        c.difference ≡ none → c.stored < length p.entries → Effect db (longer k u p s db c)
    unfolding longer
    longer-Effect d lt = elim (Bool-cases (may_extend s u.authority u.submitted_by)) [
      | inr no_right ↦ rw no_right (reject-Effect _ c.stored true)
      | inl right ↦
          rw right
            (elim (Bool-cases
              (not (is_source u.authority) && ltb 0 (repository_entries s c.stored))) [
                | inl owned ↦ rw owned (reject-Effect _ c.stored false)
                | inr free ↦
                    let may : (is_source u.authority ≡ true) ⊎ (repository_entries s c.stored ≡ 0) =
                      elim (Bool-cases (is_source u.authority)) [
                        | inl source ↦ inl source
                        | inr other ↦ inr (ground arith)
                      ] in
                    rw free (extend-Effect d lt may _)
              ])
    ]

    agreeing-Effect :
        c.difference ≡ none
        → ((length p.entries == c.stored) ≡ true → unbaselined k u db ≡ false)
        → Effect db (agreeing k u p s db c)
    unfolding agreeing
    agreeing-Effect d settled = elim (Bool-cases (ltb c.stored (length p.entries))) [
      | inl lt ↦ rw lt (longer-Effect d (ltb→lt _ _ lt))
      | inr more ↦ rw more (elim (Bool-cases (is_backfill k u p s c)) [
        | inr kept ↦ rw kept (keeps refl (λ _. refl))
        | inl same ↦ rw same (elim (Bool-cases u.dry_run) [
          | inl dry ↦ keeps (rw dry) (λ _. refl)
          | inr wet ↦
              backfills p s (record { session = e; parsed = q; wet = wet; accepted = refl }) refl
                (settled (and-left _ _ same)) (ground arith) (rw wet)
        ])
      ])
    ]

    compared-Effect : Effect db (compared k u p s db c)
    unfolding compared
    compared-Effect =
        elim (Bool-cases (
          is_system k u.authority
          && repository_wins s (length p.entries) c (has_current_version db.versions))) [
            | inl wins ↦ rw wins (elim (Bool-cases u.dry_run) [
              | inl dry ↦ keeps (rw dry) (λ wet. cc)
              | inr wet ↦
                  adopts p s (record { session = e; parsed = q; wet = wet; accepted = refl })
                    (and-left _ _ wins) (and-right _ _ wins) (rw wet)
            ])
            | inr not_won ↦
                rw not_won
                  (elim (Bool-cases (
                    not (is_some c.difference)
                    && (unbaselined k u db && length p.entries == c.stored))) [
                      | inl same ↦ rw same (elim (Bool-cases u.dry_run) [
                        | inl dry ↦ keeps (rw dry) (λ _. refl)
                        | inr wet ↦
                            baselines p s
                              (record { session = e; parsed = q; wet = wet; accepted = refl }) refl
                              (ground arith) (ground arith) (ground arith) (rw wet)
                      ])
                      | inr more ↦ rw more (elim (Option-cases c.difference) [
                        | inl d ↦ rw d (agreeing-Effect d (λ same. ground arith))
                        | inr (i, d) ↦ rw d (reject-Effect _ c.stored false)
                      ])
                    ])
          ]

  import_stored-Effect :
      (s : Session) (db : Stored)
      → db.session ≡ some s
      → Effect db (import_stored k u u.preparsed s db)
  unfolding import_stored against
  import_stored-Effect s db e =
      elim (Bool-cases (eq_text s.content_sha256 (some (sha_of k u)) && not (unbaselined k u db))) [
        | inl same ↦ rw same (keeps refl (λ _. refl))
        | inr other ↦ rw other (elim (Option-cases (parsed_or k u u.preparsed)) [
          | inl bad ↦ rw bad (keeps refl (λ _. refl))
          | inr (p, q) ↦ rw q (compared-Effect p s db e q)
        ])
      ]

  import_new-Effect :
      (db : Stored) (o : Option Parsed)
      → db.session ≡ none
      → parsed_or k u u.preparsed ≡ o
      → Effect db (import_new k u db none o)
  unfolding import_new
  import_new-Effect db none e q = keeps refl (λ _. refl)
  import_new-Effect db (some p) e q = elim (Bool-cases u.dry_run) [
    | inl dry ↦ rw dry (keeps refl (λ wet. cc))
    | inr wet ↦ rw wet (creates p e q refl)
  ]

  import_for-Effect :
      (db : Stored) (o : Option Session) → db.session ≡ o → Effect db (import_for k u none db o)
  unfolding import_for
  import_for-Effect db none e = import_new-Effect db (parsed_or k u u.preparsed) e refl
  import_for-Effect db (some s) e = import_stored-Effect s db e

  -- Every import ends in one of the ways, where no other transaction creates the session meanwhile.
  pub import-Effect : (db : Stored) → Effect db (import k u none db)
  unfolding import
  import-Effect db = import_for-Effect db db.session refl
