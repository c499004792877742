-- ===== src/StoreSync/Stands.antt =====
-- A recorded outcome stands: no later sync of app/services/evidence_store/sync.py changes the record of
-- a version but one that could not be read or written.
use mathlib.Core.Option.{some-injective}
use ai_agent_first_trust_por.Prelude.{
  ℕ, suc, String, Bool, true, false, not, Option, none, some, List, [], ◌∷◌, ◌++◌, ◌≡◌, ◌≢◌, refl,
  sym, subst, ap, ◌∙◌, eq_iff, find, find-holds, find-append, find-update_first_other, Bool-cases,
  Option-cases, inl, inr, if◌then◌else◌,
}
use ai_agent_first_trust_por.StoreSync.Listing.{ListedVersion, KeyGroup}
use ai_agent_first_trust_por.StoreSync.Tally.{Status}
use ai_agent_first_trust_por.StoreSync.Fetch.{Fetch, raised, fetched}
use ai_agent_first_trust_por.StoreSync.Process.{
  Row, RecordStatus, Recorded, Work, World, Attempt, commits, conflict, deadlock, fails, lock_lost,
  Synced, lock_lost_error, synced, has_id, is_row_of, record_row, committed, record_failure,
  Answers, write_refusal, write_again, write, counted_new, process_version, recorded_version,
  to_process, retried, process_candidates, candidates, process_batch, write_version, refused_work,
  work_of, updated, record_id_of, row_of, record_found,
}

-- The id, a primary key, names a row that a query finds.
abbrev pub IdsUnique : List Row → Type 0
IdsUnique rows =
    (test : Row → Bool) (q : Row) → find test rows ≡ some q → find (has_id q.id) rows ≡ some q

find-append_some :
    (p : Row → Bool) (rows : List Row) (q r : Row)
    → find p rows ≡ some r
    → find p (rows ++ q ∷ []) ≡ some r
find-append_some p rows q r h = find-append p rows q ∙ rw h refl

module _ (i : String) (r : Row) where
  abbrev Held : List Row → Type 0
  Held rows = find (has_id i) rows ≡ some r

  -- A work that is on another row, or on a new one.
  abbrev Elsewhere : Option String → Type 0
  Elsewhere o = (j : String) → o ≡ some j → j ≢ i

  has_other : (q : Row) (x : Row) → q.id ≢ i → has_id q.id x ≡ true → has_id i x ≡ false
  has_other q x ne p = elim (Bool-cases (has_id i x)) [
    | inl same ↦ absurd (ne (sym ((eq_iff x.id q.id).0 p) ∙ (eq_iff x.id i).0 same))
    | inr other ↦ other
  ]

  record_found-Held :
      (w : Work) (new_id : String) (s : RecordStatus) (n : ℕ) (rows : List Row) (o : Option Row)
      → ((q : Row) → o ≡ some q → q.id ≢ i)
      → Held rows
      → Held (record_found w new_id s n rows o)
  unfolding record_found
  record_found-Held w new_id s n rows none away h = find-append_some (has_id i) rows _ r h
  record_found-Held w new_id s n rows (some q) away h =
      find-update_first_other (has_id q.id) (has_id i) (updated w s n) rows
        (λ x. has_other q x (away q refl)) (λ x. refl)
      ∙ h

  row_of-away :
      (o : Option String) (rows : List Row) (q : Row)
      → Elsewhere o
      → row_of o rows ≡ some q
      → q.id ≢ i
  unfolding row_of
  row_of-away none rows q away e = cc
  row_of-away (some j) rows q away e =
      let qj : q.id ≡ j = (eq_iff q.id j).0 (find-holds (has_id j) rows q e) in
      λ same. away j refl (sym qj ∙ same)

  record_row-Held :
      (w : Work) (new_id : String) (s : RecordStatus) (n : ℕ) (rows : List Row)
      → Elsewhere w.record_id
      → Held rows
      → Held (record_row w new_id s n rows)
  unfolding record_row
  record_row-Held w new_id s n rows away h =
      record_found-Held w new_id s n rows (row_of w.record_id rows)
        (λ q. row_of-away w.record_id rows q away) h

  abbrev StillHeld : Synced → Type 0
  StillHeld lock_lost_error = Unit {0}
  StillHeld (synced w) = Held w.rows

  if-StillHeld :
      (b : Bool) (s t : Synced) → StillHeld s → StillHeld t → StillHeld (if b then s else t)
  if-StillHeld true s t h k = h
  if-StillHeld false s t h k = k

  committed-Held :
      (w : Work) (new_id : String) (import : Status) (world : World)
      → Elsewhere w.record_id
      → Held world.rows
      → StillHeld (committed w new_id import world)
  unfolding committed write_version
  committed-Held w new_id import world away h =
      record_row-Held w new_id _ w.attempts world.rows away h

  record_failure-Held :
      (w : Work) (new_id : String) (a : Attempt) (world : World)
      → Elsewhere w.record_id
      → Held world.rows
      → StillHeld (record_failure w new_id a world)
  unfolding record_failure
  record_failure-Held w new_id (commits s) world away h =
      if-StillHeld w.reevaluation _ _ h
        (record_row-Held w new_id _ (suc w.attempts) world.rows away h)
  record_failure-Held w new_id lock_lost world away h = if-StillHeld w.reevaluation _ _ h tt
  record_failure-Held w new_id other world away h = if-StillHeld w.reevaluation _ _ h h

  write_refusal-Held :
      (w : Work) (a : Answers) (world : World)
      → Elsewhere w.record_id
      → Held world.rows
      → StillHeld (write_refusal w a world)
  unfolding write_refusal
  write_refusal-Held w a world away h = by a.refusal
    where
      by : (t : Attempt) → StillHeld (write_refusal w (record a { refusal = t }) world)
      by (commits s) = committed-Held (refused_work w) a.new_id s world away h
      by lock_lost = tt
      by other = record_failure-Held (refused_work w) a.new_id a.failure world away h

  write_again-Held :
      (w : Work) (a : Answers) (world : World)
      → Elsewhere w.record_id
      → Held world.rows
      → StillHeld (write_again w a world)
  unfolding write_again
  write_again-Held w a world away h = by a.second
    where
      by : (t : Attempt) → StillHeld (write_again w (record a { second = t }) world)
      by (commits s) = committed-Held w a.new_id s world away h
      by conflict = write_refusal-Held w (record a { second = conflict }) world away h
      by lock_lost = tt
      by other = record_failure-Held w a.new_id a.failure world away h

  write-Held :
      (w : Work) (a : Answers) (world : World)
      → Elsewhere w.record_id
      → Held world.rows
      → StillHeld (write w a world)
  unfolding write
  write-Held w a world away h = by a.first
    where
      by : (t : Attempt) → StillHeld (write w (record a { first = t }) world)
      by (commits s) = committed-Held w a.new_id s world away h
      by conflict = write_refusal-Held w (record a { first = conflict }) world away h
      by deadlock = write_again-Held w (record a { first = deadlock }) world away h
      by fails = record_failure-Held w a.new_id a.failure world away h
      by lock_lost = tt

  process_version-Held :
      (v : ListedVersion) (o : Option Recorded) (a : Answers) (world : World)
      → Elsewhere (record_id_of o)
      → Held world.rows
      → StillHeld (process_version v o a world)
  unfolding process_version
  process_version-Held v o a world away h = by a.fetch
    where
      by : (f : Fetch) → StillHeld (process_version v o (record a { fetch = f }) world)
      by (raised f) =
          record_failure-Held (work_of v o f) a.new_id a.failure (counted_new world) away h
      by (fetched f) =
          write-Held (work_of v o f) (record a { fetch = fetched f }) (counted_new world) away h

  then-Held :
      (s : Synced) (f : World → Synced)
      → StillHeld s
      → ((v : World) → Held v.rows → StillHeld (f v))
      → StillHeld (elim s [ lock_lost_error ↦ lock_lost_error | synced w ↦ f w ])
  then-Held lock_lost_error f h k = tt
  then-Held (synced v) f h k = k v h

  -- A version that is processed has no record, or one that is not this settled one.
  processed-away :
      (known : List Row) (v : ListedVersion)
      → IdsUnique known
      → Held known
      → retried r.status ≡ false
      → to_process (recorded_version known v) ≡ true
      → Elsewhere (record_id_of (recorded_version known v))
  unfolding recorded_version to_process
  processed-away known v unique held settled go = elim (Option-cases (find (is_row_of v) known)) [
    | inl e ↦ λ j p. let k : none ≡ some j = rw e at p in cc
    | inr (q, e) ↦ λ j p same.
        let k : some q.id ≡ some j = rw e at p in
        let qi : q.id ≡ i = some-injective q.id j k ∙ same in
        let f : find (has_id i) known ≡ some q =
          subst (λ (x : String). find (has_id x) known ≡ some q) qi (unique (is_row_of v) q e) in
        let qr : q ≡ r = some-injective q r (sym f ∙ held) in
        let retry : retried q.status ≡ true = rw e at go in
        let not_retried : retried q.status ≡ false =
          ap (λ (x : Row). retried x.status) qr ∙ settled in
        cc
  ]

  process_candidates-Held :
      (known : List Row) (cs : List (ListedVersion × Answers)) (world : World)
      → IdsUnique known
      → Held known
      → retried r.status ≡ false
      → Held world.rows
      → StillHeld (process_candidates known cs world)
  unfolding process_candidates
  process_candidates-Held known [] world unique held settled h = h
  process_candidates-Held known ((v, a) ∷ rest) world unique held settled h =
      elim (Bool-cases (to_process (recorded_version known v))) [
        | inl go ↦ rw go (
            then-Held (process_version v (recorded_version known v) a world)
              (process_candidates known rest)
              (process_version-Held v (recorded_version known v) a world
                (processed-away known v unique held settled go) h)
              (λ next. process_candidates-Held known rest next unique held settled))
        | inr skip ↦ rw skip (process_candidates-Held known rest world unique held settled h)
      ]

-- Where ids are unique, a record whose status is not `error` (an outcome of an import, or one that an
-- administrator has acknowledged or erased) keeps every column through a batch that ends, whatever
-- versions it lists and whatever the store and the database answer.
pub batch-settled_stands :
    (answers : ListedVersion → Answers) (batch : List KeyGroup) (world world' : World) (i : String)
    (r : Row)
    → IdsUnique world.rows
    → find (has_id i) world.rows ≡ some r
    → retried r.status ≡ false
    → process_batch answers batch world ≡ synced world'
    → find (has_id i) world'.rows ≡ some r
unfolding process_batch
batch-settled_stands answers batch world world' i r unique held settled e =
    subst (StillHeld i r) e
      (process_candidates-Held i r world.rows (candidates answers batch) _ unique held settled held)

-- whether the first version of a key, if it has one, is not to be processed
abbrev pub is_known : List Row → Option ListedVersion → Bool
is_known rows none = true
is_known rows (some v) = not (to_process (recorded_version rows v))
