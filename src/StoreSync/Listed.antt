-- ===== src/StoreSync/Listed.antt =====
-- Every listed version and delete marker of app/services/evidence_store/store.py is counted once, and
-- all but the first write of each key are anomalies of app/services/evidence_store/sync.py.
use ai_agent_first_trust_por.Prelude.{
  ℕ, suc, ◌+◌, ◌≤◌, Bool, true, false, Option, none, some, List, [], ◌∷◌, ◌++◌, ◌≡◌, refl, ◌∙◌,
  arith, length, length-append, Option-cases, Bool-cases, inl, inr,
}
use mathlib.Core.Option.{some-injective}
use ai_agent_first_trust_por.Auth.Header.{same_text}
use ai_agent_first_trust_por.StoreSync.Listing.{
  ListedVersion, KeyGroup, Grouping, add, empty_group, group_item, group_page, group_pages,
  iter_groups, yield_last,
}
use ai_agent_first_trust_por.StoreSync.Tally.{first_count}

-- The lists of a group are within its counts, and a later version means that there is a first one.
pub record IsTallied (g : KeyGroup) : Type 0 where
  pub later_within : length g.later ≤ g.later_count
  pub markers_within : length g.markers ≤ g.marker_count

abbrev pub AllTallied : List KeyGroup → Type 0
AllTallied [] = Unit {0}
AllTallied (g ∷ gs) = IsTallied g × AllTallied gs

abbrev pub listed_of : KeyGroup → ℕ
listed_of g = first_count g + g.later_count + g.marker_count

abbrev pub anomalies_of : KeyGroup → ℕ
anomalies_of g = g.later_count + g.marker_count

abbrev pub total : (KeyGroup → ℕ) → List KeyGroup → ℕ
total f [] = 0
total f (g ∷ gs) = f g + total f gs

add-counts : (g : KeyGroup) (item : ListedVersion) → listed_of (add g item) ≡ suc (listed_of g)
unfolding add
add-counts g item = elim (Option-cases g.first) [ inl e ↦ ground arith | inr (v, e) ↦ ground arith ]

add-IsTallied : (g : KeyGroup) (item : ListedVersion) → IsTallied g → IsTallied (add g item)
unfolding add
add-IsTallied g item s = elim (Option-cases g.first) [
  | inl e ↦ ground (arith, length-append g.markers (item ∷ []))
  | inr (v, e) ↦ ground (arith, length-append g.markers (item ∷ []), length-append g.later (v ∷ []))
]

empty-IsTallied : (key : List ℕ) → IsTallied (empty_group key)
empty-IsTallied key = record { later_within = omega arith; markers_within = omega arith }

total-append :
    (f : KeyGroup → ℕ) (gs hs : List KeyGroup) → total f (gs ++ hs) ≡ total f gs + total f hs
total-append f [] hs = omega arith
total-append f (g ∷ gs) hs = omega (arith, total-append f gs hs)

AllTallied-append :
    (gs : List KeyGroup) (g : KeyGroup) → AllTallied gs → IsTallied g → AllTallied (gs ++ g ∷ [])
AllTallied-append [] g _ h = (h, tt)
AllTallied-append (x ∷ gs) g (s, a) h = (s, AllTallied-append gs g a h)

-- What a grouping has counted so far, and what its groups are like.
abbrev seen : Grouping → ℕ
seen s = total listed_of (yield_last s)

record IsGrouped (s : Grouping) : Type 0 where
  all : AllTallied s.yielded
  last : (g : KeyGroup) → s.group ≡ some g → IsTallied g

abbrev grouping : List KeyGroup → Option KeyGroup → Grouping
grouping gs o = record { yielded = gs; group = o }

group_item-seen :
    (gs : List KeyGroup) (o : Option KeyGroup) (item : ListedVersion)
    → seen (group_item (grouping gs o) item) ≡ suc (seen (grouping gs o))
unfolding group_item
group_item-seen gs none item =
    total-append listed_of gs _ ∙ omega (arith, add-counts (empty_group item.key) item)
group_item-seen gs (some g) item = elim (Bool-cases (same_text g.key item.key)) [
  | inl same ↦ rw same (
      total-append listed_of gs _
      ∙ omega (arith, total-append listed_of gs (g ∷ []), add-counts g item))
  | inr other ↦ rw other (
      total-append listed_of (gs ++ g ∷ []) _
      ∙ omega (arith, add-counts (empty_group item.key) item))
]

group_item-IsGrouped :
    (gs : List KeyGroup) (o : Option KeyGroup) (item : ListedVersion)
    → IsGrouped (grouping gs o)
    → IsGrouped (group_item (grouping gs o) item)
unfolding group_item
group_item-IsGrouped gs none item s = record {
  all = s.all;
  last = λ g e. rw (← some-injective _ _ e) (add-IsTallied _ item (empty-IsTallied item.key));
}
group_item-IsGrouped gs (some g) item s = elim (Bool-cases (same_text g.key item.key)) [
  | inl same ↦ rw same (record {
    all = s.all;
    last = λ h e. rw (← some-injective _ _ e) (add-IsTallied g item (s.last g refl));
  })
  | inr other ↦ rw other (record {
    all = AllTallied-append gs g s.all (s.last g refl);
    last = λ h e. rw (← some-injective _ _ e) (add-IsTallied _ item (empty-IsTallied item.key));
  })
]

group_page-seen :
    (s : Grouping) (items : List ListedVersion) → seen (group_page s items) ≡ seen s + length items
unfolding group_page
group_page-seen s [] = omega arith
group_page-seen s (item ∷ items) =
    omega (arith, group_page-seen (group_item s item) items, group_item-seen s.yielded s.group item)

group_page-IsGrouped :
    (s : Grouping) (items : List ListedVersion) → IsGrouped s → IsGrouped (group_page s items)
unfolding group_page
group_page-IsGrouped s [] h = h
group_page-IsGrouped s (item ∷ items) h =
    group_page-IsGrouped (group_item s item) items (group_item-IsGrouped s.yielded s.group item h)

abbrev pub all_items : List (List ListedVersion) → ℕ
all_items [] = 0
all_items (page ∷ pages) = length page + all_items pages

group_pages-seen :
    (s : Grouping) (pages : List (List ListedVersion))
    → seen (group_pages s pages) ≡ seen s + all_items pages
unfolding group_pages
group_pages-seen s [] = omega arith
group_pages-seen s (page ∷ pages) =
    omega (arith, group_pages-seen (group_page s page) pages, group_page-seen s page)

group_pages-IsGrouped :
    (s : Grouping) (pages : List (List ListedVersion))
    → IsGrouped s
    → IsGrouped (group_pages s pages)
unfolding group_pages
group_pages-IsGrouped s [] h = h
group_pages-IsGrouped s (page ∷ pages) h =
    group_pages-IsGrouped (group_page s page) pages (group_page-IsGrouped s page h)

yielded-AllTallied : (s : Grouping) → IsGrouped s → AllTallied (yield_last s)
yielded-AllTallied s h = elim (Option-cases s.group) [
  | inl e ↦ rw e h.all
  | inr (g, e) ↦ rw e (AllTallied-append s.yielded g h.all (h.last g e))
]

start-IsGrouped : IsGrouped (grouping [] none)
start-IsGrouped = record { all = tt; last = λ g e. cc }

pub iter_groups-AllTallied :
    (pages : List (List ListedVersion)) (failed : Bool) → AllTallied (iter_groups pages failed)
unfolding iter_groups
iter_groups-AllTallied pages true =
    (group_pages-IsGrouped (grouping [] none) pages start-IsGrouped).all
iter_groups-AllTallied pages false =
    yielded-AllTallied _ (group_pages-IsGrouped (grouping [] none) pages start-IsGrouped)

pub iter_groups-listed :
    (pages : List (List ListedVersion))
    → total listed_of (iter_groups pages false) ≡ all_items pages
unfolding iter_groups
iter_groups-listed pages = omega (arith, group_pages-seen (grouping [] none) pages)
