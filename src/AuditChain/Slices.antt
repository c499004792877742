-- ===== src/AuditChain/Slices.antt =====
-- The chunks and slices of `verify_chain` in app/services/audit_chain.py: however the rows are cut,
-- one pass over them in order gives the findings.
use Prim.Native.Nat.{min}
use ai_agent_first_trust_por.Prelude.{
  ℕ, zero, suc, ◌+◌, ◌-◌, ◌≤◌, ◌<◌, String, Bool, true, not, Option, none, some, List, [], ◌∷◌,
  ◌++◌, ◌≡◌, ◌∙◌, refl, ap, sym, arith, Bool-cases, inl, inr, ltb, leb, any, take, drop, length,
  take-append-drop, take-split, length-drop, length-take, take-all,
}
use ai_agent_first_trust_por.AuditLog.{Row, rows_after}
use ai_agent_first_trust_por.AuditChain.Scan.{
  Progress, check_row, check_rows, chunk_limit, after_chunk, round, scan,
}

-- The ids ascend, and are `low` or more.
abbrev pub Ascending : ℕ → List Row → Type 0
Ascending low [] = Unit
Ascending low (r ∷ rows) = (low ≤ r.id) × Ascending (suc r.id) rows

Ascending-mono :
    (low low' : ℕ) (rows : List Row) → low' ≤ low → Ascending low rows → Ascending low' rows
Ascending-mono low low' [] le h = tt
Ascending-mono low low' (r ∷ rows) le h = (omega arith, h.1)

Ascending-rows_after :
    (a low : ℕ) (rows : List Row) → Ascending low rows → Ascending low (rows_after a rows)
unfolding rows_after
Ascending-rows_after a low [] h = tt
Ascending-rows_after a low (r ∷ rows) h = ground (
  arith,
  Ascending-rows_after a (suc r.id) rows h.1,
  Ascending-mono (suc r.id) low (rows_after a rows),
)

rows_after-above :
    (a low : ℕ) (rows : List Row) → Ascending low rows → Ascending (suc a) (rows_after a rows)
unfolding rows_after
rows_after-above a low [] h = tt
rows_after-above a low (r ∷ rows) h =
    ground
      (arith, rows_after-above a (suc r.id) rows h.1, Ascending-rows_after a (suc r.id) rows h.1)

rows_after-all : (a : ℕ) (rows : List Row) → Ascending (suc a) rows → rows_after a rows ≡ rows
unfolding rows_after
rows_after-all a [] h = refl
rows_after-all a (r ∷ rows) h =
    ground (arith, rows_after-all a rows (Ascending-mono (suc r.id) (suc a) rows (omega arith) h.1))

rows_after-rows_after :
    (a b : ℕ) (rows : List Row) → a ≤ b → rows_after b (rows_after a rows) ≡ rows_after b rows
unfolding rows_after
rows_after-rows_after a b [] h = refl
rows_after-rows_after a b (r ∷ rows) h = ground (arith, rows_after-rows_after a b rows h)

module _ (sha256_hex : String → String) (versioned : Bool) where
  abbrev pass : Progress → List Row → Progress
  pass = check_rows sha256_hex versioned

  pub check_rows-append :
      (p : Progress) (xs ys : List Row) → pass p (xs ++ ys) ≡ pass (pass p xs) ys
  unfolding check_rows
  check_rows-append p [] ys = refl
  check_rows-append p (r ∷ xs) ys = check_rows-append (check_row sha256_hex versioned p r) xs ys

  last_id-check_row : (p : Progress) (r : Row) → (check_row sha256_hex versioned p r).last_id ≡ r.id
  unfolding check_row
  last_id-check_row p r = refl

  verified-check_rows :
      (p : Progress) (rows : List Row) → (pass p rows).verified ≡ p.verified + length rows
  unfolding check_rows check_row
  verified-check_rows p [] = omega arith
  verified-check_rows p (r ∷ rows) =
      omega (arith, verified-check_rows (check_row sha256_hex versioned p r) rows)

  last_id-le :
      (p : Progress) (rows : List Row)
      → Ascending (suc p.last_id) rows
      → p.last_id ≤ (pass p rows).last_id
  unfolding check_rows check_row
  last_id-le p [] h = omega arith
  last_id-le p (r ∷ rows) h =
      omega (arith, h.0, last_id-le (check_row sha256_hex versioned p r) rows h.1)

  last_id-take :
      (p : Progress) (k : ℕ) (rows : List Row)
      → Ascending (suc p.last_id) rows
      → p.last_id ≤ (pass p (take k rows)).last_id
  unfolding check_rows check_row
  last_id-take p zero rows h = omega arith
  last_id-take p (suc k) [] h = omega arith
  last_id-take p (suc k) (r ∷ rows) h =
      omega (arith, h.0, last_id-take (check_row sha256_hex versioned p r) k rows h.1)

  -- After `k` rows the next chunk begins where they ended.
  rows_after-pass :
      (p : Progress) (k : ℕ) (rows : List Row)
      → Ascending (suc p.last_id) rows
      → rows_after (pass p (take k rows)).last_id rows ≡ drop k rows
  unfolding check_rows check_row rows_after
  rows_after-pass p zero rows h = rows_after-all p.last_id rows h
  rows_after-pass p (suc k) [] h = refl
  rows_after-pass p (suc k) (r ∷ rows) h =
      let p' : Progress = check_row sha256_hex versioned p r in
      ground (arith, last_id-take p' k rows h.1, rows_after-pass p' k rows h.1)

  -- The rows that are left after a chunk, as the next query reads them.
  pub next_chunk :
      (p : Progress) (k : ℕ) (rows : List Row)
      → Ascending 0 rows
      → rows_after (pass p (take k (rows_after p.last_id rows))).last_id rows
        ≡ drop k (rows_after p.last_id rows)
  next_chunk p k rows h =
      let left : List Row = rows_after p.last_id rows in
      let above : Ascending (suc p.last_id) left = rows_after-above p.last_id 0 rows h in
      sym (
        rows_after-rows_after p.last_id (pass p (take k left)).last_id rows
          (last_id-take p k left above))
      ∙ rows_after-pass p k left above

  pass-take-drop :
      (p : Progress) (k : ℕ) (rows : List Row)
      → pass (pass p (take k rows)) (drop k rows) ≡ pass p rows
  pass-take-drop p k rows =
      sym (check_rows-append p (take k rows) (drop k rows)) ∙ ap (pass p) (take-append-drop k rows)

  -- A round without `max_rows`, if the rest of the loop is right after a full chunk.
  chunk_round :
      (limit : ℕ) (p : Progress) (left : List Row) (rest : Progress → Option (Progress × Bool))
      → 0 < limit
      → (0 < length left → rest (pass p (take limit left)) ≡ some (pass p left, true))
      → after_chunk sha256_hex versioned none limit p (take limit left) rest
        ≡ some (pass p left, true)
  unfolding after_chunk
  chunk_round zero p left rest h ih = absurd (omega arith)
  chunk_round (suc k) p [] rest h ih = unfold check_rows in refl
  chunk_round (suc k) p (r ∷ left) rest h ih =
      ground (arith, take-all k left, length-take k left, ih (omega arith))

  module _ (chunk_size : ℕ) (rows : List Row) (chunked : 0 < chunk_size)
      (ascending : Ascending 0 rows) where
    -- On rows that ascend by id and with more fuel than rows the loop ends, whatever the positive
    -- size of its chunks, and has made one pass over every row after its start.
    pub scan-eq-pass :
        (fuel : ℕ) (p : Progress)
        → length (rows_after p.last_id rows) < fuel
        → scan sha256_hex versioned fuel chunk_size none rows p
          ≡ some (pass p (rows_after p.last_id rows), true)
    unfolding scan chunk_limit
    scan-eq-pass zero p h = absurd (omega arith)
    scan-eq-pass (suc fuel) p h =
        let left : List Row = rows_after p.last_id rows in
        let p' : Progress = pass p (take chunk_size left) in
        let next : rows_after p'.last_id rows ≡ drop chunk_size left =
          next_chunk p chunk_size rows ascending in
        chunk_round chunk_size p left (scan sha256_hex versioned fuel chunk_size none rows) chunked
          (λ some_left.
            scan-eq-pass fuel p' (rw next (omega (arith, length-drop chunk_size left)))
            ∙ rw next (ap (λ q. some (q, true)) (pass-take-drop p chunk_size left)))

  any-rows_after :
      (a : ℕ) (rows : List Row)
      → not (any (λ r. ltb a r.id) rows) ≡ leb (length (rows_after a rows)) 0
  unfolding rows_after
  any-rows_after a [] = refl
  any-rows_after a (r ∷ rows) = ground (arith, any-rows_after a rows)

  -- A round with `max_rows` that takes a chunk, if the rest of the loop is right after it.
  bounded_round :
      (limit m quota : ℕ) (p : Progress) (left : List Row)
      (rest : Progress → Option (Progress × Bool))
      → 0 < limit
      → limit ≤ quota
      → (0 < length left
          → rest (pass p (take limit left))
            ≡ some (pass p (take quota left), leb (length left) quota))
      → after_chunk sha256_hex versioned (some m) limit p (take limit left) rest
        ≡ some (pass p (take quota left), leb (length left) quota)
  unfolding after_chunk
  bounded_round zero m quota p left rest h le ih = absurd (omega arith)
  bounded_round (suc k) m zero p left rest h le ih = absurd (omega arith)
  bounded_round (suc k) m (suc quota) p [] rest h le ih = unfold check_rows in ground arith
  bounded_round (suc k) m (suc quota) p (r ∷ left) rest h le ih = ground (arith, ih (omega arith))

  -- A chunk and the rest of the quota, over the rows after it.
  rest_of_pass :
      (limit m v v' : ℕ) (p : Progress) (left : List Row)
      → v' ≡ v + length (take limit left)
      → limit ≤ m - v
      → ◌≡◌ {A = Option (Progress × Bool)}
          (some (
            pass (pass p (take limit left)) (take (m - v') (drop limit left)),
            leb (length (drop limit left)) (m - v'),
          ))
          (some (pass p (take (m - v) left), leb (length left) (m - v)))
  rest_of_pass limit m v v' p left e le =
      let taken : ℕ = length (take limit left) in
      let same : m - v' ≡ m - v - taken = omega arith in
      rw same (
        rw
          (
            ← check_rows-append p (take limit left) (take (m - v - taken) (drop limit left)),
            ← take-split limit (m - v) left le,
          )
          (ap (λ (b : Bool). some (pass p (take (m - v) left), b))
            (ground (arith, length-drop limit left, length-take limit left))))

  module _ (chunk_size m : ℕ) (rows : List Row) (chunked : 0 < chunk_size)
      (ascending : Ascending 0 rows) where
    -- With more fuel than rows the loop bounded by `max_rows` ends; it has made one pass over the
    -- first rows after its start, as many as the bound still allows, and `complete` says whether
    -- these were all.
    pub scan-eq-bounded_pass :
        (fuel : ℕ) (p : Progress)
        → length (rows_after p.last_id rows) < fuel
        → scan sha256_hex versioned fuel chunk_size (some m) rows p
          ≡ some (
            pass p (take (m - p.verified) (rows_after p.last_id rows)),
            leb (length (rows_after p.last_id rows)) (m - p.verified),
          )
    unfolding scan chunk_limit round
    scan-eq-bounded_pass zero p h = absurd (omega arith)
    scan-eq-bounded_pass (suc fuel) p h = elim (Bool-cases (leb m p.verified)) [
      | inl spent ↦
          let none_left : m - p.verified ≡ 0 = ground arith in
          rw spent (
            rw none_left
              (unfold check_rows in ap (λ (b : Bool). some (p, b)) (any-rows_after p.last_id rows)))
      | inr going ↦
          let left : List Row = rows_after p.last_id rows in
          let limit : ℕ = min chunk_size (m - p.verified) in
          let p' : Progress = pass p (take limit left) in
          let next : rows_after p'.last_id rows ≡ drop limit left =
            next_chunk p limit rows ascending in
          let open_quota : 0 < m - p.verified = ground arith in
          rw going (
            bounded_round limit m (m - p.verified) p left
              (scan sha256_hex versioned fuel chunk_size (some m) rows) (omega arith) (omega arith)
              (λ some_left.
                scan-eq-bounded_pass fuel p' (rw next (omega (arith, length-drop limit left)))
                ∙ rw next (
                    rest_of_pass limit m p.verified p'.verified p left
                      (verified-check_rows p (take limit left)) (omega arith))))
    ]
