-- ===== src/StoreSync/Listing.antt =====
-- The versions of a bucket, grouped by key: `KeyGroup` and `iter_groups` of
-- app/services/evidence_store/store.py. A page is its versions and delete markers as the code has
-- sorted them; keys are code points.
use ai_agent_first_trust_por.Prelude.{
  ℕ, suc, String, Bool, Option, none, some, List, [], ◌∷◌, ◌++◌, ltb, length, if◌then◌else◌,
}
use ai_agent_first_trust_por.Auth.Header.{same_text}

pub record ListedVersion : Type 0 where
  pub key : List ℕ
  pub version_id : String
  pub size : ℕ
  pub delete_marker : Bool

pub record KeyGroup : Type 0 where
  pub key : List ℕ
  pub first : Option ListedVersion
  pub later : List ListedVersion
  pub later_count : ℕ
  pub markers : List ListedVersion
  pub marker_count : ℕ

-- `MAX_GROUP_DETAIL`
abbrev pub max_group_detail : ℕ
max_group_detail = 20

abbrev pub capped : List ListedVersion → ListedVersion → List ListedVersion
capped kept item = if ltb (length kept) max_group_detail then kept ++ item ∷ [] else kept

with_first : KeyGroup → ListedVersion → Option ListedVersion → KeyGroup
with_first g item none = record g { first = some item }
with_first g item (some earlier) = record g {
  first = some item;
  later = capped g.later earlier;
  later_count = suc g.later_count;
}

-- `KeyGroup.add`
unfoldable pub add : KeyGroup → ListedVersion → KeyGroup
unfolding with_first
add g item =
    if item.delete_marker
    then record g { markers = capped g.markers item; marker_count = suc g.marker_count }
    else with_first g item g.first

abbrev pub empty_group : List ℕ → KeyGroup
empty_group key = record {
  key = key;
  first = none;
  later = [];
  later_count = 0;
  markers = [];
  marker_count = 0;
}

-- the groups that were yielded, and the one at hand
pub record Grouping : Type 0 where
  pub yielded : List KeyGroup
  pub group : Option KeyGroup

group_next : Grouping → ListedVersion → Option KeyGroup → Grouping
group_next s item none = record s { group = some (add (empty_group item.key) item) }
group_next s item (some g) =
    if same_text g.key item.key
    then record s { group = some (add g item) }
    else record { yielded = s.yielded ++ g ∷ []; group = some (add (empty_group item.key) item) }

-- the body of the loop over the entries of a page
unfoldable pub group_item : Grouping → ListedVersion → Grouping
unfolding group_next
group_item s item = group_next s item s.group

unfoldable pub group_page : Grouping → List ListedVersion → Grouping
group_page s [] = s
group_page s (item ∷ items) = group_page (group_item s item) items

unfoldable pub group_pages : Grouping → List (List ListedVersion) → Grouping
group_pages s [] = s
group_pages s (page ∷ pages) = group_pages (group_page s page) pages

abbrev pub yield_last : Grouping → List KeyGroup
yield_last s = elim s.group [ none ↦ s.yielded | some g ↦ s.yielded ++ g ∷ [] ]

-- `iter_groups_safely`: the pages that were listed, and whether the next one failed; a failure leaves
-- the group at hand unyielded
unfoldable pub iter_groups : List (List ListedVersion) → Bool → List KeyGroup
iter_groups pages failed =
    let s = group_pages (record { yielded = []; group = none }) pages in
    if failed then s.yielded else yield_last s
