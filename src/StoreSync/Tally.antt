-- ===== src/StoreSync/Tally.antt =====
-- The counts of a sync and the anomalies of a listing: `Tally` and `note_anomalies` of
-- app/services/evidence_store/sync.py. The entries of the lists are the keys that they name.
use ai_agent_first_trust_por.Prelude.{
  ℕ, suc, ◌+◌, ◌-◌, String, ◌||◌, Option, none, some, List, [], ◌∷◌, ◌++◌, ltb, length, is_some,
  if◌then◌else◌,
}
use ai_agent_first_trust_por.StoreSync.Listing.{ListedVersion, KeyGroup}

-- the statuses of a record that a sync writes
pub data Status : Type 0 where
  ingested unchanged recorded duplicate rejected non_conforming too_large : Status

-- `COUNT_KEYS`
pub record Counts : Type 0 where
  pub listed : ℕ
  pub new : ℕ
  pub ingested : ℕ
  pub unchanged : ℕ
  pub recorded : ℕ
  pub duplicate : ℕ
  pub rejected : ℕ
  pub non_conforming : ℕ
  pub too_large : ℕ
  pub errors : ℕ
  pub anomalies : ℕ
  pub reevaluated : ℕ

pub data Issue : Type 0 where
  second_version delete_marker : Issue
  more_versions more_markers : ℕ → Issue

pub record Tally : Type 0 where
  pub counts : Counts
  pub anomalies : List (List ℕ × Option String × Issue)
  pub errors : List (List ℕ × Option String)

-- `MAX_DETAIL_ITEMS`
abbrev pub max_detail_items : ℕ
max_detail_items = 200

unfoldable pub count_status : Status → Counts → Counts
count_status Status.ingested c = record c { ingested = suc c.ingested }
count_status Status.unchanged c = record c { unchanged = suc c.unchanged }
count_status Status.recorded c = record c { recorded = suc c.recorded }
count_status Status.duplicate c = record c { duplicate = suc c.duplicate }
count_status Status.rejected c = record c { rejected = suc c.rejected }
count_status Status.non_conforming c = record c { non_conforming = suc c.non_conforming }
count_status Status.too_large c = record c { too_large = suc c.too_large }

-- `Tally.add`, of the counts
unfoldable pub add_status : Status → Tally → Tally
add_status status t = record t { counts = count_status status t.counts }

-- `Tally.anomaly`
unfoldable pub anomaly : List ℕ → Option String → Issue → ℕ → Tally → Tally
anomaly key version_id issue count t = record t {
  counts = record t.counts { anomalies = t.counts.anomalies + count };
  anomalies =
      if ltb (length t.anomalies) max_detail_items
      then t.anomalies ++ (key, version_id, issue) ∷ []
      else t.anomalies;
}

-- `Tally.error`
unfoldable pub error : List ℕ → Option String → Tally → Tally
error key version_id t = record t {
  counts = record t.counts { errors = suc t.counts.errors };
  errors =
      if ltb (length t.errors) max_detail_items
      then t.errors ++ (key, version_id) ∷ []
      else t.errors;
}

pub data RunStatus : Type 0 where
  success partial unchanged_run failure : RunStatus

-- `Tally.status`
unfoldable pub run_status : Tally → RunStatus
run_status t =
    let c = t.counts in
    if ltb 0 c.errors
      || (ltb 0 c.anomalies || (ltb 0 c.rejected || (ltb 0 c.non_conforming || ltb 0 c.too_large)))
    then partial
    else if ltb 0 c.new || ltb 0 c.reevaluated
    then success
    else unchanged_run

-- a loop of `note_anomalies`
unfoldable pub note_each : Issue → List ListedVersion → Tally → Tally
note_each issue [] t = t
note_each issue (v ∷ vs) t = note_each issue vs (anomaly v.key (some v.version_id) issue 1 t)

unfoldable pub note_more : List ℕ → (ℕ → Issue) → ℕ → ℕ → Tally → Tally
note_more key issue count kept t =
    if ltb kept count then anomaly key none (issue (count - kept)) (count - kept) t else t

unfoldable pub note_anomalies : KeyGroup → Tally → Tally
unfolding note_more
note_anomalies g t =
    let t = note_each second_version g.later t in
    let t = note_more g.key more_versions g.later_count (length g.later) t in
    let t = note_each delete_marker g.markers t in
    note_more g.key more_markers g.marker_count (length g.markers) t

abbrev pub first_count : KeyGroup → ℕ
first_count g = if is_some g.first then 1 else 0

-- the first statements of `_process_batch`, for one group
unfoldable pub note_group : KeyGroup → Tally → Tally
note_group g t = note_anomalies g (record t {
  counts = record t.counts {
    listed = t.counts.listed + (first_count g + g.later_count + g.marker_count);
  };
})

unfoldable pub note_groups : List KeyGroup → Tally → Tally
note_groups [] t = t
note_groups (g ∷ gs) t = note_groups gs (note_group g t)
