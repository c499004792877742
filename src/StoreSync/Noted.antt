-- ===== src/StoreSync/Noted.antt =====
-- What `note_anomalies` of app/services/evidence_store/sync.py adds to the counts of a listing.
use ai_agent_first_trust_por.Prelude.{
  ℕ, suc, ◌+◌, ◌-◌, ◌≤◌, Option, none, some, List, [], ◌∷◌, ◌≡◌, refl, ◌∙◌, arith, ltb, length,
  length-append, Bool-cases, inl, inr,
}
use ai_agent_first_trust_por.StoreSync.Listing.{ListedVersion, KeyGroup}
use ai_agent_first_trust_por.StoreSync.Tally.{
  Tally, Issue, second_version, delete_marker, more_versions, more_markers, anomaly, note_each,
  note_more, note_anomalies, note_group, note_groups, first_count, max_detail_items,
}
use ai_agent_first_trust_por.StoreSync.Listed.{
  IsTallied, AllTallied, total, listed_of, anomalies_of,
}

-- Only the anomalies are counted, `n` of them, and the list of them stays within its limit.
pub record Noted (n : ℕ) (t t' : Tally) : Type 0 where
  pub counts : t'.counts ≡ record t.counts { anomalies = t.counts.anomalies + n }
  pub bounded : length t.anomalies ≤ max_detail_items → length t'.anomalies ≤ max_detail_items
  pub errors : t'.errors ≡ t.errors

anomaly-Noted :
    (key : List ℕ) (id : Option _) (issue : Issue) (n : ℕ) (t : Tally)
    → Noted n t (anomaly key id issue n t)
unfolding anomaly
anomaly-Noted key id issue n t = record {
  counts = refl;
  bounded = λ h. ground (arith, length-append t.anomalies ((key, id, issue) ∷ []));
  errors = refl;
}

Noted-trans : (n m : ℕ) (t u v : Tally) → Noted n t u → Noted m u v → Noted (n + m) t v
Noted-trans n m t u v a b = record {
  counts = ground (arith, a.counts, b.counts);
  bounded = λ h. b.bounded (a.bounded h);
  errors = b.errors ∙ a.errors;
}

same-Noted : (t : Tally) → Noted 0 t t
same-Noted t = record { counts = ground arith; bounded = λ h. h; errors = refl }

note_each-Noted :
    (issue : Issue) (vs : List ListedVersion) (t : Tally)
    → Noted (length vs) t (note_each issue vs t)
unfolding note_each
note_each-Noted issue [] t = same-Noted t
note_each-Noted issue (v ∷ vs) t =
    let r =
      Noted-trans 1 (length vs) t _ _ (anomaly-Noted v.key (some v.version_id) issue 1 t)
        (note_each-Noted issue vs (anomaly v.key (some v.version_id) issue 1 t)) in
    let e : 1 + length vs ≡ suc (length vs) = omega arith in rw e at r

note_more-Noted :
    (key : List ℕ) (issue : ℕ → Issue) (count kept : ℕ) (t : Tally)
    → Noted (count - kept) t (note_more key issue count kept t)
unfolding note_more
note_more-Noted key issue count kept t = elim (Bool-cases (ltb kept count)) [
  | inl more ↦ rw more (anomaly-Noted key none (issue (count - kept)) (count - kept) t)
  | inr all ↦ let e : count - kept ≡ 0 = ground arith in rw e (rw all (same-Noted t))
]

note_anomalies-Noted :
    (g : KeyGroup) (t : Tally) → IsTallied g → Noted (anomalies_of g) t (note_anomalies g t)
unfolding note_anomalies
note_anomalies-Noted g t s =
    let a = note_each second_version g.later t in
    let b = note_more g.key more_versions g.later_count (length g.later) a in
    let c = note_each delete_marker g.markers b in
    let r =
      Noted-trans _ _ t c _
        (Noted-trans _ _ t b c
          (Noted-trans _ _ t a b (note_each-Noted second_version g.later t)
            (note_more-Noted g.key more_versions g.later_count (length g.later) a))
          (note_each-Noted delete_marker g.markers b))
        (note_more-Noted g.key more_markers g.marker_count (length g.markers) c) in
    let e : ((length g.later + (g.later_count - length g.later)) + length g.markers)
          + (g.marker_count - length g.markers)
        ≡ anomalies_of g =
      omega (arith, s.later_within, s.markers_within) in
    rw e at r

-- The counts that a listing changes.
pub record Listed (gs : List KeyGroup) (t t' : Tally) : Type 0 where
  pub counts : t'.counts ≡ record t.counts {
    listed = t.counts.listed + total listed_of gs;
    anomalies = t.counts.anomalies + total anomalies_of gs;
  }
  pub bounded : length t.anomalies ≤ max_detail_items → length t'.anomalies ≤ max_detail_items

pub note_groups-Listed :
    (gs : List KeyGroup) (t : Tally) → AllTallied gs → Listed gs t (note_groups gs t)
unfolding note_groups note_group
note_groups-Listed [] t _ = record { counts = ground arith; bounded = λ h. h }
note_groups-Listed (g ∷ gs) t (s, a) =
    let u = record t {
      counts = record t.counts {
        listed = t.counts.listed + (first_count g + g.later_count + g.marker_count);
      };
    } in
    let n = note_anomalies-Noted g u s in
    let r = note_groups-Listed gs (note_anomalies g u) a in
    record { counts = ground (arith, n.counts, r.counts); bounded = λ h. r.bounded (n.bounded h) }
