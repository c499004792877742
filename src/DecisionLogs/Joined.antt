-- ===== src/DecisionLogs/Joined.antt =====
-- The entries that an import joins, and their digest, which it takes on from the comparison:
-- `digest_with` of app/services/evidence_import_decision_logs.py.
use ai_agent_first_trust_por.Prelude.{
  ℕ, ◌≤◌, ◌<◌, true, none, ◌++◌, ◌≡◌, ap, sym, ◌∙◌, arith, length, take, drop, subst, take-all,
  Option-cases, inl, inr,
}
use ai_agent_first_trust_por.DecisionLogs.Entries.{entries_digest, digest_with}
use ai_agent_first_trust_por.DecisionLogs.Compared.{
  first_difference, agreed, bytes_of-append, compare_with_stored-eq,
}
use ai_agent_first_trust_por.DecisionLogs.Agreement.{
  difference-bounds, agreed-of_shorter, agreed-of_longer, joined-length,
}
use ai_agent_first_trust_por.DecisionLogs.Store.{
  Parsed, Session, Stored, Upload, has_current_version,
}
use ai_agent_first_trust_por.DecisionLogs.Writes.{Codec, conflict_cut}
use ai_agent_first_trust_por.DecisionLogs.Import.{repository_wins}
use ai_agent_first_trust_por.DecisionLogs.Effects.{comparison}

module _ (k : Codec) (u : Upload) (p : Parsed) (db : Stored) where
  -- The digest of a joined list, as it is taken on from the comparison's prefix.
  joined-digest :
      (n : ℕ)
      → agreed k.reencode db.entries p.entries ≡ n
      → digest_with k.sha256_hex k.canonical (comparison k u p db) (drop n p.entries)
        ≡ entries_digest k.sha256_hex k.canonical (take n db.entries ++ drop n p.entries)
  unfolding digest_with entries_digest
  joined-digest n e =
      rw compare_with_stored-eq (rw e (ap k.sha256_hex (sym (bytes_of-append k.canonical _ _))))

  pub comparison-difference :
      (comparison k u p db).difference ≡ first_difference k.reencode db.entries p.entries
  comparison-difference = rw compare_with_stored-eq

  pub comparison-stored : (comparison k u p db).stored ≡ length db.entries
  comparison-stored = rw compare_with_stored-eq

  pub comparison-digest :
      (comparison k u p db).stored_sha256 ≡ entries_digest k.sha256_hex k.canonical db.entries
  comparison-digest = rw compare_with_stored-eq

  -- All stored entries and the export's from the n-th on have the export's length, and the digest
  -- that is taken on from the comparison.
  abbrev pub Joined : ℕ → Type 0
  Joined n =
      (length p.entries ≡ length (db.entries ++ drop n p.entries))
      × (digest_with k.sha256_hex k.canonical (comparison k u p db) (drop n p.entries)
          ≡ entries_digest k.sha256_hex k.canonical (db.entries ++ drop n p.entries))

  pub extended-describes :
      (comparison k u p db).difference ≡ none
      → (comparison k u p db).stored < length p.entries
      → Joined (comparison k u p db).stored
  extended-describes agree lt =
      let n : length db.entries ≤ length p.entries = omega (arith, comparison-stored) in
      let a : agreed k.reencode db.entries p.entries ≡ length db.entries =
        agreed-of_shorter k.reencode db.entries p.entries (sym comparison-difference ∙ agree) n in
      let all : take (length db.entries) db.entries ≡ db.entries =
        take-all (length db.entries) db.entries (omega arith) in
      let l : length (take (length db.entries) db.entries ++ drop (length db.entries) p.entries)
          ≡ length p.entries =
        joined-length k.reencode (length db.entries) db.entries p.entries (omega arith) in
      let d = joined-digest (length db.entries) a in
      subst Joined (sym comparison-stored) (sym (rw all at l), rw all at d)

  -- Where the repository wins, all entries before the cut agree.
  pub cut-agreed :
      (s : Session)
      → repository_wins s (length p.entries) (comparison k u p db) (has_current_version db.versions)
        ≡ true
      → agreed k.reencode db.entries p.entries ≡ conflict_cut k p (comparison k u p db)
  unfolding repository_wins
  cut-agreed s h = elim (Option-cases (comparison k u p db).difference) [
    | inl e ↦
        let lt : length p.entries ≤ length db.entries = ground (arith, comparison-stored) in
        rw e (agreed-of_longer k.reencode db.entries p.entries (sym comparison-difference ∙ e) lt)
    | inr (d, e) ↦
        rw e
          ((difference-bounds k.reencode db.entries p.entries d (sym comparison-difference ∙ e)).2)
  ]

  pub adopted-describes :
      (n : ℕ)
      → agreed k.reencode db.entries p.entries ≡ n
      → (length p.entries ≡ length (take n db.entries ++ drop n p.entries))
        × (digest_with k.sha256_hex k.canonical (comparison k u p db) (drop n p.entries)
            ≡ entries_digest k.sha256_hex k.canonical (take n db.entries ++ drop n p.entries))
  adopted-describes n a =
      (sym (joined-length k.reencode n db.entries p.entries (omega arith)), joined-digest n a)
