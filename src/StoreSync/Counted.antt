-- ===== src/StoreSync/Counted.antt =====
-- Each version that app/services/evidence_store/sync.py processes is counted under one outcome.
use ai_agent_first_trust_por.Prelude.{
  ℕ, suc, ◌+◌, String, Bool, true, false, Option, List, [], ◌∷◌, ◌≡◌, refl, subst, ap, arith,
  Bool-cases, inl, inr, if◌then◌else◌,
}
use ai_agent_first_trust_por.StoreSync.Listing.{ListedVersion, KeyGroup}
use ai_agent_first_trust_por.StoreSync.Tally.{
  Status, Counts, count_status, add_status, error, note_groups,
}
use ai_agent_first_trust_por.StoreSync.Listed.{AllTallied}
use ai_agent_first_trust_por.StoreSync.Noted.{note_groups-Listed}
use ai_agent_first_trust_por.StoreSync.Fetch.{Fetch, raised, fetched}
use ai_agent_first_trust_por.StoreSync.Process.{
  Row, Recorded, Work, World, Attempt, commits, conflict, deadlock, fails, lock_lost, Synced,
  lock_lost_error, synced, committed, record_failure, Answers, write_refusal, write_again, write,
  counted_new, process_version, recorded_version, to_process, process_candidates, candidates,
  process_batch, write_version, refused_work, work_of,
}

-- the outcomes that are counted, errors among them
abbrev pub outcomes : Counts → ℕ
outcomes c =
    c.ingested + c.unchanged + c.recorded + c.duplicate + c.rejected + c.non_conforming
    + c.too_large + c.errors

abbrev pub counts_of : World → Counts
counts_of w = w.tally.counts

-- One more outcome, and the other counts as they were, unless the lock was lost.
abbrev OneMore : World → Synced → Type 0
OneMore w lock_lost_error = Unit {0}
OneMore w (synced w') =
    (outcomes (counts_of w') ≡ suc (outcomes (counts_of w)))
    × ((counts_of w').new ≡ (counts_of w).new)

count_status-outcomes :
    (s : Status) (c : Counts)
    → (outcomes (count_status s c) ≡ suc (outcomes c)) × ((count_status s c).new ≡ c.new)
unfolding count_status
count_status-outcomes Status.ingested c = (omega arith, refl)
count_status-outcomes s c = (omega arith, refl)

committed-OneMore :
    (w : Work) (new_id : String) (import : Status) (world : World)
    → OneMore world (committed w new_id import world)
unfolding committed write_version add_status
committed-OneMore w new_id import world = count_status-outcomes _ (counts_of world)

if-OneMore :
    (world : World) (b : Bool) (s t : Synced)
    → OneMore world s
    → OneMore world t
    → OneMore world (if b then s else t)
if-OneMore world true s t h k = h
if-OneMore world false s t h k = k

record_failure-OneMore :
    (w : Work) (new_id : String) (a : Attempt) (world : World)
    → OneMore world (record_failure w new_id a world)
unfolding record_failure error
record_failure-OneMore w new_id (commits s) world =
    if-OneMore world w.reevaluation _ _ (omega arith, refl) (omega arith, refl)
record_failure-OneMore w new_id lock_lost world =
    if-OneMore world w.reevaluation _ _ (omega arith, refl) tt
record_failure-OneMore w new_id other world =
    if-OneMore world w.reevaluation _ _ (omega arith, refl) (omega arith, refl)

write_refusal-OneMore :
    (w : Work) (a : Answers) (world : World) → OneMore world (write_refusal w a world)
unfolding write_refusal
write_refusal-OneMore w a world = by a.refusal
  where
    by : (t : Attempt) → OneMore world (write_refusal w (record a { refusal = t }) world)
    by (commits s) = committed-OneMore (refused_work w) a.new_id s world
    by lock_lost = tt
    by other = record_failure-OneMore (refused_work w) a.new_id a.failure world

write_again-OneMore :
    (w : Work) (a : Answers) (world : World) → OneMore world (write_again w a world)
unfolding write_again
write_again-OneMore w a world = by a.second
  where
    by : (t : Attempt) → OneMore world (write_again w (record a { second = t }) world)
    by (commits s) = committed-OneMore w a.new_id s world
    by conflict = write_refusal-OneMore w (record a { second = conflict }) world
    by lock_lost = tt
    by other = record_failure-OneMore w a.new_id a.failure world

write-OneMore : (w : Work) (a : Answers) (world : World) → OneMore world (write w a world)
unfolding write
write-OneMore w a world = by a.first
  where
    by : (t : Attempt) → OneMore world (write w (record a { first = t }) world)
    by (commits s) = committed-OneMore w a.new_id s world
    by conflict = write_refusal-OneMore w (record a { first = conflict }) world
    by deadlock = write_again-OneMore w (record a { first = deadlock }) world
    by fails = record_failure-OneMore w a.new_id a.failure world
    by lock_lost = tt

-- As many new versions as outcomes are added.
abbrev Balanced : World → Synced → Type 0
Balanced w lock_lost_error = Unit {0}
Balanced w (synced w') =
    outcomes (counts_of w') + (counts_of w).new ≡ outcomes (counts_of w) + (counts_of w').new

new-Balanced : (w : World) (s : Synced) → OneMore (counted_new w) s → Balanced w s
new-Balanced w lock_lost_error h = tt
new-Balanced w (synced w') h = omega arith

process_version-Balanced :
    (v : ListedVersion) (r : Option Recorded) (a : Answers) (world : World)
    → Balanced world (process_version v r a world)
unfolding process_version
process_version-Balanced v r a world = by a.fetch
  where
    by : (f : Fetch) → Balanced world (process_version v r (record a { fetch = f }) world)
    by (raised f) =
        new-Balanced world _
          (record_failure-OneMore (work_of v r f) a.new_id a.failure (counted_new world))
    by (fetched f) =
        new-Balanced world _
          (write-OneMore (work_of v r f) (record a { fetch = fetched f }) (counted_new world))

Balanced-trans : (u v : World) (s : Synced) → Balanced u (synced v) → Balanced v s → Balanced u s
Balanced-trans u v lock_lost_error h k = tt
Balanced-trans u v (synced w) h k = omega arith

-- what the loop does after a version
abbrev and_then : Synced → (World → Synced) → Synced
and_then s f = elim s [ lock_lost_error ↦ lock_lost_error | synced w ↦ f w ]

then-Balanced :
    (u : World) (s : Synced) (f : World → Synced)
    → Balanced u s
    → ((v : World) → Balanced v (f v))
    → Balanced u (and_then s f)
then-Balanced u lock_lost_error f h k = tt
then-Balanced u (synced v) f h k = Balanced-trans u v (f v) h (k v)

process_candidates-Balanced :
    (known : List Row) (cs : List (ListedVersion × Answers)) (world : World)
    → Balanced world (process_candidates known cs world)
unfolding process_candidates
process_candidates-Balanced known [] world = refl
process_candidates-Balanced known ((v, a) ∷ rest) world =
    elim (Bool-cases (to_process (recorded_version known v))) [
      | inl go ↦ rw go (
          then-Balanced world (process_version v (recorded_version known v) a world)
            (process_candidates known rest)
            (process_version-Balanced v (recorded_version known v) a world)
            (process_candidates-Balanced known rest))
      | inr skip ↦ rw skip (process_candidates-Balanced known rest world)
    ]

listed-Balanced :
    (world : World) (batch : List KeyGroup) (s : Synced)
    → AllTallied batch
    → Balanced (record world { tally = note_groups batch world.tally }) s
    → Balanced world s
listed-Balanced world batch lock_lost_error a h = tt
listed-Balanced world batch (synced w) a h =
    let e = (note_groups-Listed batch world.tally a).counts in
    let o : outcomes (note_groups batch world.tally).counts ≡ outcomes (counts_of world) =
      ap outcomes e in
    let n : (note_groups batch world.tally).counts.new ≡ (counts_of world).new =
      ap (λ (c : Counts). c.new) e in
    omega arith

-- A batch that ends adds as many outcomes (the seven statuses of a record, and errors) as new
-- versions: each version that is processed, and no other, is counted under exactly one outcome,
-- whatever the store and the database answer.
pub batch-balanced :
    (answers : ListedVersion → Answers) (batch : List KeyGroup) (world world' : World)
    → AllTallied batch
    → process_batch answers batch world ≡ synced world'
    → outcomes (counts_of world') + (counts_of world).new
      ≡ outcomes (counts_of world) + (counts_of world').new
unfolding process_batch
batch-balanced answers batch world world' a e = subst (Balanced world) e (
    listed-Balanced world batch _ a
      (process_candidates-Balanced world.rows (candidates answers batch) _))
