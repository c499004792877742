-- ===== src/AuditChain/Tampering.antt =====
-- What a change of the rows does to the verdict of `verify_chain` in app/services/audit_chain.py.
use ai_agent_first_trust_por.Prelude.{
  ℕ, ◌<◌, String, Bool, true, false, Option, none, List, [], ◌∷◌, ◌++◌, ◌≡◌, ◌∙◌, sym, ap, arith,
  length, str_eq,
}
use ai_agent_first_trust_por.AuditLog.{Row, computed, rows_after}
use ai_agent_first_trust_por.AuditWitness.Heads.{Anchor, AnchorVerification}
use ai_agent_first_trust_por.AuditChain.Slices.{Ascending}
use ai_agent_first_trust_por.AuditChain.Issues.{valid}
use ai_agent_first_trust_por.AuditChain.Verdict.{
  start, find_chain_start, Report, verified_log, verify_chain,
}
use ai_agent_first_trust_por.AuditChain.Clean.{Chained}
use ai_agent_first_trust_por.AuditChain.Verified.{verify_chain-valid_iff}

module _ (sha256_hex : String → String) (versioned : Bool) where
  -- the hash of the last row, or what stood before
  pub head_hash : String → List Row → String
  head_hash e [] = e
  head_hash e (r ∷ rows) = head_hash (computed sha256_hex versioned r) rows

  pub Chained-append :
      (e : String) (xs ys : List Row)
      → Chained sha256_hex versioned e (xs ++ ys)
      → Chained sha256_hex versioned e xs × Chained sha256_hex versioned (head_hash e xs) ys
  unfolding head_hash
  Chained-append e [] ys h = (tt, h)
  Chained-append e (r ∷ xs) ys (own, linked, rest) =
      let (a, b) = Chained-append (computed sha256_hex versioned r) xs ys rest in
      ((own, linked, a), b)

  Chained-previous :
      (e e' : String) (z : Row) (zs : List Row)
      → Chained sha256_hex versioned e (z ∷ zs)
      → Chained sha256_hex versioned e' (z ∷ zs)
      → e ≡ e'
  Chained-previous e e' z zs h h' = ground arith

  -- If a chained log stays chained without some of its rows, other than the last ones, then the
  -- hash of the last removed row is the hash that the removed rows themselves build on.
  pub removed_rows_cycle :
      (e : String) (xs ys : List Row) (z : Row) (zs : List Row)
      → Chained sha256_hex versioned e (xs ++ (ys ++ z ∷ zs))
      → Chained sha256_hex versioned e (xs ++ z ∷ zs)
      → head_hash (head_hash e xs) ys ≡ head_hash e xs
  removed_rows_cycle e xs ys z zs whole cut =
      let (before, from_ys) = Chained-append e xs (ys ++ z ∷ zs) whole in
      let (middle, after) = Chained-append (head_hash e xs) ys (z ∷ zs) from_ys in
      let (before', after') = Chained-append e xs (z ∷ zs) cut in
      Chained-previous _ _ z zs after after'

-- A full verification's report, where the log has rows with hashes.
module _ (sha256_hex : String → String) (versioned : Bool)
    (nonempty : (s : String) → str_eq (sha256_hex s) "" ≡ false) (estimate : Option ℕ)
    (verifier : Option (Anchor → AnchorVerification)) (fuel chunk_size : ℕ)
    (chunked : 0 < chunk_size) (a : ℕ) (e : String) (anchor : Option Anchor) where
  abbrev Reports : List Row → Report → Type 0
  Reports rows r =
      verify_chain sha256_hex true versioned estimate fuel chunk_size none none verifier rows none
      ≡ verified_log r

  pub valid-Chained :
      (rows : List Row) (unhashed : ℕ) (r : Report)
      → find_chain_start rows ≡ start a e anchor unhashed
      → Ascending 0 rows
      → length rows < fuel
      → Reports rows r
      → r.status ≡ valid
      → Chained sha256_hex versioned e (rows_after a rows)
  valid-Chained rows unhashed r begins ascending enough reported is_valid =
      let (r', reported', complete, iff) =
        verify_chain-valid_iff sha256_hex versioned nonempty estimate verifier fuel chunk_size rows
          a e anchor unhashed begins ascending chunked enough in
      let same : r ≡ r' = cc (reported, reported') in
      (iff.0 (ap (λ (x : Report). x.status) (sym same) ∙ is_valid)).0

  -- Two logs that begin alike, where the second lacks some rows `ys` of the first that are not its
  -- last ones, are both reported valid only if the hash of the last of the lacking rows is the hash
  -- that they build on. So rows that are removed from within a chain show, unless the digest runs
  -- into a cycle. The digest is never empty, the ids of both logs ascend, there is
  -- more fuel than rows, the chunk size is positive, and both logs start alike.
  pub removal_needs_cycle :
      (rows rows' : List Row) (unhashed unhashed' : ℕ) (r r' : Report) (xs ys : List Row) (z : Row)
      (zs : List Row)
      → find_chain_start rows ≡ start a e anchor unhashed
      → find_chain_start rows' ≡ start a e anchor unhashed'
      → Ascending 0 rows
      → Ascending 0 rows'
      → length rows < fuel
      → length rows' < fuel
      → Reports rows r
      → Reports rows' r'
      → r.status ≡ valid
      → r'.status ≡ valid
      → rows_after a rows ≡ xs ++ (ys ++ z ∷ zs)
      → rows_after a rows' ≡ xs ++ z ∷ zs
      → head_hash sha256_hex versioned (head_hash sha256_hex versioned e xs) ys
        ≡ head_hash sha256_hex versioned e xs
  removal_needs_cycle rows rows' u u' r r' xs ys z zs b b' asc asc' f f' rep rep' v v' whole cut =
      removed_rows_cycle sha256_hex versioned e xs ys z zs
        (rw whole at (valid-Chained rows u r b asc f rep v))
        (rw cut at (valid-Chained rows' u' r' b' asc' f' rep' v'))
