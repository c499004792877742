-- ===== src/DecisionLogs/Current.antt =====
-- The current version describes the stored entries: the version rows that
-- app/services/evidence_import_decision_logs.py writes.
use ai_agent_first_trust_por.Prelude.{
  ℕ, ◌+◌, ◌≤◌, ◌<◌, String, Bool, true, false, Option, none, some, List, [], ◌∷◌, ◌++◌, ◌≡◌, refl,
  ap, arith, map, length, any, count_by, is_some, Bool-cases, inl, inr,
}
use ai_agent_first_trust_por.DecisionLogs.Entries.{Entry, Comparison, entries_digest}
use ai_agent_first_trust_por.DecisionLogs.Store.{
  Parsed, Session, Stored, Upload, Version, Reason, is_current, has_current_version, version,
  apply_session_fields, inserted_session,
}
use ai_agent_first_trust_por.DecisionLogs.Writes.{
  Codec, supersede_current, superseded_row, create, extend, adopt, baseline, backfill,
  record_rejected,
}
use ai_agent_first_trust_por.DecisionLogs.Import.{Outcome, import, sha_of, repository_wins}
use ai_agent_first_trust_por.DecisionLogs.Joined.{
  comparison-digest, comparison-stored, extended-describes, cut-agreed, adopted-describes,
}
use ai_agent_first_trust_por.DecisionLogs.Effects.{
  Effect, keeps, rejects, creates, extends, adopts, baselines, backfills, import-Effect, comparison,
  known_rejected,
}

abbrev pub sha_of_session : Stored → Option String
sha_of_session db = elim db.session [ none ↦ none | some s ↦ s.content_sha256 ]

-- The version counts the entries, has their digest, and is of the session's content.
abbrev pub Describes : ℕ → String → Option String → Version → Type 0
Describes n digest sha v =
    (v.entry_count ≡ n)
    × (v.entries_sha256 ≡ some digest)
    × (v.content_sha256 ≡ sha)
    × (is_some sha ≡ true)

abbrev pub AllDescribe : ℕ → String → Option String → List Version → Type 0
AllDescribe n digest sha [] = Unit {0}
AllDescribe n digest sha (v ∷ vs) =
    (is_current v ≡ true → Describes n digest sha v) × AllDescribe n digest sha vs

-- At most one version is current and it describes the stored entries; where there is no session
-- there are no entries and no versions.
pub record IsSound (k : Codec) (db : Stored) : Type 0 where
  pub one : count_by is_current db.versions ≤ 1
  pub described :
      AllDescribe
        (length db.entries)
        (entries_digest k.sha256_hex k.canonical db.entries)
        (sha_of_session db)
        db.versions
  pub no_entries : db.session ≡ none → db.entries ≡ []
  pub no_versions : db.session ≡ none → db.versions ≡ []

-- Rows without a current one describe anything.
none_describe :
    (n : ℕ) (digest : String) (sha : Option String) (vs : List Version)
    → count_by is_current vs ≡ 0
    → AllDescribe n digest sha vs
none_describe n digest sha [] h = tt
none_describe n digest sha (v ∷ vs) h =
    (λ c. ground arith, none_describe n digest sha vs (ground arith))

AllDescribe-append :
    (n : ℕ) (digest : String) (sha : Option String) (vs ws : List Version)
    → AllDescribe n digest sha vs
    → AllDescribe n digest sha ws
    → AllDescribe n digest sha (vs ++ ws)
AllDescribe-append n digest sha [] ws _ h = h
AllDescribe-append n digest sha (v ∷ vs) ws (d, g) h =
    (d, AllDescribe-append n digest sha vs ws g h)

count_by-append :
    (p : Version → Bool) (vs ws : List Version)
    → count_by p (vs ++ ws) ≡ count_by p vs + count_by p ws
count_by-append p [] ws = omega arith
count_by-append p (v ∷ vs) ws = ground (arith, count_by-append p vs ws)

superseded-count :
    (gz : List ℕ) (digest : String) (reason : Reason) (vs : List Version)
    → count_by is_current (map (superseded_row gz digest reason) vs) ≡ 0
unfolding superseded_row
superseded-count gz digest reason [] = refl
superseded-count gz digest reason (v ∷ vs) = ground (arith, superseded-count gz digest reason vs)

no_current-count : (vs : List Version) → any is_current vs ≡ false → count_by is_current vs ≡ 0
no_current-count [] h = refl
no_current-count (v ∷ vs) h = ground (arith, no_current-count vs)

-- No version is current once the current one is superseded.
supersede-count :
    (u : Upload) (s : Session) (gz : List ℕ) (digest : String) (n : ℕ) (reason : Reason)
    (vs : List Version)
    → count_by is_current (supersede_current u s gz digest n reason vs) ≡ 0
unfolding supersede_current has_current_version
supersede-count u s gz digest n reason vs = elim (Bool-cases (any is_current vs)) [
  | inl h ↦ rw h (superseded-count gz digest reason vs)
  | inr h ↦ rw h (rw count_by-append (ground (arith, no_current-count vs)))
]

-- A described current version behind rows of which none is current.
module _ (k : Codec) (s : Session) (es : List Entry) (vs : List Version) (v : Version) where
  fresh-IsSound :
      count_by is_current vs ≡ 0
      → Describes (length es) (entries_digest k.sha256_hex k.canonical es) s.content_sha256 v
      → IsSound k (record { session = some s; entries = es; versions = vs ++ v ∷ [] })
  fresh-IsSound none_current d = record {
    one = rw count_by-append (ground arith);
    described =
        AllDescribe-append _ _ _ vs (v ∷ []) (none_describe _ _ _ vs none_current) ((λ _. d), tt);
    no_entries = λ h. cc;
    no_versions = λ h. cc;
  }

module _ (k : Codec) (u : Upload) (db : Stored) where
  create-IsSound :
      (p : Parsed) (n : ℕ) (agent : String)
      → db.session ≡ none
      → IsSound k db
      → IsSound k (create k u p (sha_of k u) n agent db)
  unfolding create inserted_session version
  create-IsSound p n agent absent sound = rw (sound.no_entries absent) (
      rw (sound.no_versions absent)
        (fresh-IsSound k _ p.entries [] _ refl (refl, refl, refl, refl)))

  extend-IsSound :
      (p : Parsed) (s : Session)
      → (comparison k u p db).difference ≡ none
      → (comparison k u p db).stored < length p.entries
      → IsSound k (extend k u p (sha_of k u) (comparison k u p db) s db)
  unfolding extend version apply_session_fields
  extend-IsSound p s agree lt =
      let (n, d) = extended-describes k u p db agree lt in
      fresh-IsSound k _ _ _ _ (supersede-count u s _ _ _ _ db.versions) (n, ap some d, refl, refl)

  adopt-IsSound :
      (p : Parsed) (s : Session)
      → repository_wins s (length p.entries) (comparison k u p db) (has_current_version db.versions)
        ≡ true
      → IsSound k (adopt k u p (sha_of k u) (comparison k u p db) s db)
  unfolding adopt version apply_session_fields
  adopt-IsSound p s wins =
      let (n, d) = adopted-describes k u p db _ (cut-agreed k u p db s wins) in
      fresh-IsSound k _ _ _ _ (supersede-count u s _ _ _ _ db.versions) (n, ap some d, refl, refl)

  baseline-IsSound :
      (p : Parsed) (s : Session)
      → has_current_version db.versions ≡ false
      → IsSound k (baseline k u (sha_of k u) (comparison k u p db) s db)
  unfolding baseline version has_current_version
  baseline-IsSound p s fresh =
      fresh-IsSound k _ db.entries db.versions _ (no_current-count db.versions fresh)
        (comparison-stored k u p db, ap some (comparison-digest k u p db), refl, refl)

  unhashed-count :
      (n : ℕ) (digest : String) (vs : List Version)
      → AllDescribe n digest none vs
      → count_by is_current vs ≡ 0
  unhashed-count n digest [] _ = refl
  unhashed-count n digest (v ∷ vs) (d, g) = elim (Bool-cases (is_current v)) [
    | inl c ↦ let h : is_some {A = String} none ≡ true = (d c).3 in cc
    | inr c ↦ rw c (unhashed-count n digest vs g)
  ]

  backfill-IsSound :
      (c : Comparison) (s : Session)
      → db.session ≡ some s
      → s.content_sha256 ≡ none
      → IsSound k db
      → IsSound k (backfill k u (sha_of k u) c s db)
  unfolding backfill
  backfill-IsSound c s found unset sound =
      let sha : sha_of_session db ≡ none = ground arith in
      let zero_current : count_by is_current db.versions ≡ 0 =
        unhashed-count _ _ db.versions (rw sha at sound.described) in
      record {
        one = omega arith;
        described = none_describe _ _ _ db.versions zero_current;
        no_entries = λ h. cc;
        no_versions = λ h. cc;
      }

  record_rejected-IsSound :
      (n : ℕ) (reason : Reason)
      → (db.session ≡ none → ⊥)
      → IsSound k db
      → IsSound k (record_rejected k u (sha_of k u) n reason db)
  unfolding record_rejected version
  record_rejected-IsSound n reason found sound = elim (Bool-cases (known_rejected k u db)) [
    | inl known ↦ rw known sound
    | inr new ↦ rw new (record {
      one = rw count_by-append (ground (arith, sound.one));
      described = AllDescribe-append _ _ _ db.versions (_ ∷ []) sound.described ((λ h. cc), tt);
      no_entries = λ h. absurd (found h);
      no_versions = λ h. absurd (found h);
    })
  ]

  Effect-IsSound : (r : Outcome × Stored) → IsSound k db → Effect k u db r → IsSound k r.1
  Effect-IsSound r sound (keeps e no_store) = rw e sound
  Effect-IsSound r sound (rejects s reason n found new no_store refused e) =
      rw e (record_rejected-IsSound n reason (λ h. cc) sound)
  Effect-IsSound r sound (creates p absent parsed e) = rw e (create-IsSound p _ _ absent sound)
  Effect-IsSound r sound (extends p s m agree lt may e) = rw e (extend-IsSound p s agree lt)
  Effect-IsSound r sound (adopts p s m source wins e) = rw e (adopt-IsSound p s wins)
  Effect-IsSound r sound (baselines p s m no_store agree same fresh e) =
      rw e (baseline-IsSound p s fresh)
  Effect-IsSound r sound (backfills p s m no_store settled unset e) =
      rw e (backfill-IsSound (comparison k u p db) s m.session unset sound)

-- If at most one version of a session is current and it has the count and the digest of the stored
-- entries and the digest of the session's content, then so it is after any import.
pub import-IsSound :
    (k : Codec) (u : Upload) (db : Stored) → IsSound k db → IsSound k (import k u none db).1
import-IsSound k u db sound = Effect-IsSound k u db _ sound (import-Effect k u db)
