-- ===== src/AuditChain/Witnessed.antt =====
-- What `valid` says of the published heads: `verify_chain` of app/services/audit_chain.py with
-- `check_heads`, `resolve_foreign_chains` and `report` of app/services/audit_witness.py.
use ai_agent_first_trust_por.Prelude.{
  ℕ, ◌+◌, ◌≤◌, ◌<◌, String, Bool, true, false, not, Option, none, some, List, [], ◌∷◌, ◌≡◌, ◌⊎◌,
  refl, arith, ap, sym, ◌∙◌, subst, all, select, length, length-append, Option-cases, Bool-cases,
  inl, inr,
}
use ai_agent_first_trust_por.AuditLog.{Row, stored_hash, eq_hash}
use ai_agent_first_trust_por.AuditWitness.Heads.{
  Entry, HeadScan, Witness, ForeignChain, WitnessReport, Anchor, AnchorVerification, chain_id,
  is_current, compare_heads, foreign_chains_of, check_heads, lineage_of, in_lineage, place_chain,
  place_chains, resolve_foreign_chains, report,
}
use ai_agent_first_trust_por.AuditChain.Scan.{Progress}
use ai_agent_first_trust_por.AuditChain.Issues.{Findings, valid, witness_part, status_of}
use ai_agent_first_trust_por.AuditChain.Verdict.{
  ChainStart, empty_log, unhashed_log, start, find_chain_start, is_hex64, Report, Resume,
  verified_log, make_report, witness_report, verify_anchor, finish, from_start, resumed, dispatch,
  verify_chain,
}

-- A head is in the database as it was published.
abbrev pub head_stands : List Row → Entry → Bool
head_stands rows e = eq_hash (stored_hash e.id rows) e.row_hash

compare_heads-none :
    (ours : String) (rows : List Row) (es : List Entry)
    → length (compare_heads ours rows es) ≡ 0
    → all (head_stands rows) es ≡ true
unfolding compare_heads
compare_heads-none ours rows [] h = refl
compare_heads-none ours rows (e ∷ es) h = ground (arith, compare_heads-none ours rows es)

place_chain-grows :
    (a : Option Anchor) (v : Option AnchorVerification) (c : ForeignChain) (w : Witness)
    → (length w.mismatches ≤ length (place_chain a v c w).mismatches)
      × (length w.unverified_continuations ≤ length (place_chain a v c w).unverified_continuations)
      × ((place_chain a v c w).invalid_heads ≡ w.invalid_heads)
unfolding place_chain
place_chain-grows a v c w = grind (arith, length-append)

place_chain-outside :
    (a : Option Anchor) (v : Option AnchorVerification) (c : ForeignChain) (w : Witness)
    → in_lineage c (lineage_of v) ≡ false
    → 0
      < length (place_chain a v c w).mismatches
        + length (place_chain a v c w).unverified_continuations
unfolding place_chain
place_chain-outside a v c w h = grind (arith, length-append)

-- Placing the foreign chains never takes a mismatch or a continuation back.
place_chains-grows :
    (a : Option Anchor) (v : Option AnchorVerification) (cs : List ForeignChain) (w : Witness)
    → (length w.mismatches ≤ length (place_chains a v cs w).mismatches)
      × (length w.unverified_continuations
          ≤ length (place_chains a v cs w).unverified_continuations)
      × ((place_chains a v cs w).invalid_heads ≡ w.invalid_heads)
unfolding place_chains
place_chains-grows a v [] w = (omega arith, omega arith, refl)
place_chains-grows a v (c ∷ cs) w =
    ground (arith, place_chain-grows a v c w, place_chains-grows a v cs (place_chain a v c w))

place_chains-continued :
    (a : Option Anchor) (v : Option AnchorVerification) (cs : List ForeignChain) (w : Witness)
    → length (place_chains a v cs w).mismatches ≡ 0
    → length (place_chains a v cs w).unverified_continuations ≡ 0
    → all (λ c. in_lineage c (lineage_of v)) cs ≡ true
unfolding place_chains
place_chains-continued a v [] w m u = refl
place_chains-continued a v (c ∷ cs) w m u = ground (
  arith,
  place_chain-outside a v c w,
  place_chains-grows a v cs (place_chain a v c w),
  place_chains-continued a v cs (place_chain a v c w),
)

status-counts :
    (f : Findings) (v : Option AnchorVerification) (w : WitnessReport)
    → status_of f v (witness_part (some w)) ≡ valid
    → (w.mismatches_count ≡ 0)
      × (w.invalid_heads_count ≡ 0)
      × (w.unverified_continuations_count ≡ 0)
unfolding status_of witness_part
status-counts f v w h = ground arith

-- What `check_heads` found nothing against.
HeadsFine : List Row → HeadScan → Type 0
HeadsFine rows scan =
    (all (head_stands rows) (select (is_current (chain_id rows)) scan.valid) ≡ true)
    × ((scan.valid ≡ []) ⊎ (0 < length (select (is_current (chain_id rows)) scan.valid)))

length-none {ℓ} : {A : Type ℓ} (xs : List A) → length xs ≡ 0 → xs ≡ []
length-none [] h = refl
length-none (x ∷ xs) h = absurd (omega arith)

no_current :
    (rows : List Row) (es : List Entry)
    → all (head_stands rows) (select (is_current none) es) ≡ true
no_current rows [] = refl
no_current rows (e ∷ es) = no_current rows es

check_heads-fine :
    (rows : List Row) (scan : HeadScan)
    → length (check_heads rows scan).mismatches ≡ 0
    → HeadsFine rows scan
unfolding check_heads HeadsFine
check_heads-fine rows scan h = elim (Option-cases (chain_id rows)) [
  | inl e ↦ rw e (no_current rows scan.valid, grind (arith, length-append))
  | inr (ours, e) ↦ rw e (
    compare_heads-none ours rows (select (is_current (some ours)) scan.valid)
        (grind (arith, length-append)),
    grind (arith, length-append),
  )
]

-- What a report on published heads establishes, given the anchor's verified lineage.
HeadsClear : List Row → HeadScan → Option AnchorVerification → Type 0
HeadsClear rows scan v =
    (scan.invalid ≡ [])
    × (all (head_stands rows) (select (is_current (chain_id rows)) scan.valid) ≡ true)
    × (all (λ c. in_lineage c (lineage_of v))
          (foreign_chains_of (select (λ x. not (is_current (chain_id rows) x)) scan.valid))
        ≡ true)
    × ((scan.valid ≡ []) ⊎ (0 < length (select (is_current (chain_id rows)) scan.valid)))

resolved-clear :
    (rows : List Row) (scan : HeadScan) (a : Option Anchor) (v : Option AnchorVerification)
    (w : Witness)
    → w ≡ resolve_foreign_chains (check_heads rows scan) a v
    → length w.mismatches ≡ 0
    → length w.invalid_heads ≡ 0
    → length w.unverified_continuations ≡ 0
    → HeadsClear rows scan v
unfolding resolve_foreign_chains HeadsClear HeadsFine
resolved-clear rows scan a v w is m i u =
    let w0 : Witness = record (check_heads rows scan) { foreign_chains = [] } in
    let fs : List ForeignChain = (check_heads rows scan).foreign_chains in
    let (grows_m, grows_u, same) = place_chains-grows a v fs w0 in
    let m' : length (place_chains a v fs w0).mismatches ≡ 0 =
      ap (λ x. length x.mismatches) (sym is) ∙ m in
    let u' : length (place_chains a v fs w0).unverified_continuations ≡ 0 =
      ap (λ x. length x.unverified_continuations) (sym is) ∙ u in
    let i' : length (place_chains a v fs w0).invalid_heads ≡ 0 =
      ap (λ x. length x.invalid_heads) (sym is) ∙ i in
    let (stand, current) = check_heads-fine rows scan (omega arith) in
    (
      unfold check_heads in length-none scan.invalid (sym (ap length same) ∙ i'),
      stand,
      unfold check_heads in place_chains-continued a v fs w0 m' u',
      current,
    )

made-clear :
    (rows : List Row) (versioned : Bool) (estimate : Option ℕ) (scan : HeadScan)
    (verifier : Option (Anchor → AnchorVerification)) (anchor : Option Anchor) (unhashed : ℕ)
    (done : Progress × Bool)
    → let r = make_report rows versioned estimate (some scan) verifier anchor unhashed done in
      r.status ≡ valid → HeadsClear rows scan r.anchor_verification
unfolding make_report witness_report report
made-clear rows versioned estimate scan verifier anchor unhashed done h =
    let v : Option AnchorVerification = verify_anchor verifier anchor in
    let w : Witness = resolve_foreign_chains (check_heads rows scan) anchor v in
    let (m, i, u) = status-counts _ v (report w) h in resolved-clear rows scan anchor v w refl m i u

-- Every report of a verification is made of some pass.
module _ (sha256_hex : String → String) (postgres versioned : Bool) (estimate : Option ℕ)
    (fuel chunk_size : ℕ) (max_rows : Option ℕ) (heads : Option HeadScan)
    (verifier : Option (Anchor → AnchorVerification)) where
  abbrev IsMade : List Row → Report → Type 0
  IsMade rows r =
      (anchor : Option Anchor) × (unhashed : ℕ) × (done : Progress × Bool) × (r
        ≡ make_report rows versioned estimate heads verifier anchor unhashed done)

  finish-IsMade :
      (rows : List Row) (anchor : Option Anchor) (unhashed : ℕ) (o : Option (Progress × Bool))
      (r : Report)
      → finish sha256_hex postgres versioned estimate fuel chunk_size max_rows heads verifier rows
          anchor unhashed o
        ≡ verified_log r
      → IsMade rows r
  unfolding finish
  finish-IsMade rows anchor unhashed none r h = cc
  finish-IsMade rows anchor unhashed (some done) r h = (anchor, unhashed, done, cc)

  from_start-IsMade :
      (rows : List Row) (s : ChainStart) (r : Report)
      → from_start sha256_hex postgres versioned estimate fuel chunk_size max_rows heads verifier
          rows s
        ≡ verified_log r
      → IsMade rows r
  unfolding from_start
  from_start-IsMade rows empty_log r h = cc
  from_start-IsMade rows unhashed_log r h = cc
  from_start-IsMade rows (start a e anchor unhashed) r h = finish-IsMade rows anchor unhashed _ r h

  resumed-IsMade :
      (rows : List Row) (b : ℕ) (x : Option String) (r : Report)
      → resumed sha256_hex postgres versioned estimate fuel chunk_size max_rows heads verifier rows
          b x
        ≡ verified_log r
      → IsMade rows r
  unfolding resumed
  resumed-IsMade rows b none r h = cc
  resumed-IsMade rows b (some x) r h = elim (Bool-cases (is_hex64 x)) [
    | inl hex ↦ finish-IsMade rows _ 0 _ r (rw hex at h)
    | inr bad ↦ cc (rw bad at h)
  ]

  dispatch-IsMade :
      (rows : List Row) (resume : Option Resume) (r : Report)
      → dispatch sha256_hex postgres versioned estimate fuel chunk_size max_rows heads verifier rows
          resume
        ≡ verified_log r
      → IsMade rows r
  unfolding dispatch
  dispatch-IsMade rows none r h = from_start-IsMade rows (find_chain_start rows) r h
  dispatch-IsMade rows (some resume) r h = resumed-IsMade rows resume.after_id resume.expected r h

  report_clear :
      (rows : List Row) (scan : HeadScan) (r : Report) (anchor : Option Anchor) (unhashed : ℕ)
      (done : Progress × Bool)
      → heads ≡ some scan
      → r ≡ make_report rows versioned estimate heads verifier anchor unhashed done
      → r.status ≡ valid
      → HeadsClear rows scan r.anchor_verification
  report_clear rows scan r anchor unhashed done given made is_valid =
      let made' : r
          ≡ make_report rows versioned estimate (some scan) verifier anchor unhashed done =
        made
        ∙ ap (λ x. make_report rows versioned estimate x verifier anchor unhashed done) given in
      subst (λ (x : Report). HeadsClear rows scan x.anchor_verification) (sym made')
        (made-clear rows versioned estimate scan verifier anchor unhashed done
          (ap (λ x. x.status) (sym made') ∙ is_valid))

  -- A report that says `valid`, of whatever stretch of the log, when it was given published heads:
  -- no witness object is invalid; every head published for the current chain is the row that the
  -- database holds under its id; every other chain's last head is the final row of a manifest in the
  -- verified lineage; and if any head is there, some head is of the current chain.
  pub valid-heads :
      (rows : List Row) (resume : Option Resume) (scan : HeadScan) (r : Report)
      → heads ≡ some scan
      → verify_chain sha256_hex postgres versioned estimate fuel chunk_size max_rows heads verifier
          rows resume
        ≡ verified_log r
      → r.status ≡ valid
      → (scan.invalid ≡ [])
        × (all (head_stands rows) (select (is_current (chain_id rows)) scan.valid) ≡ true)
        × (all
              (λ c. in_lineage c (lineage_of r.anchor_verification))
              (foreign_chains_of (select (λ x. not (is_current (chain_id rows) x)) scan.valid))
            ≡ true)
        × ((scan.valid ≡ []) ⊎ (0 < length (select (is_current (chain_id rows)) scan.valid)))
  unfolding verify_chain
  valid-heads rows resume scan r given reported is_valid = elim (Bool-cases postgres) [
    | inl on ↦
        let (anchor, unhashed, done, made) = dispatch-IsMade rows resume r (rw on at reported) in
        unfold HeadsClear in report_clear rows scan r anchor unhashed done given made is_valid
    | inr off ↦ cc (rw off at reported)
  ]
