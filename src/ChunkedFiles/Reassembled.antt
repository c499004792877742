-- ===== src/ChunkedFiles/Reassembled.antt =====
-- What `reassemble` of app/services/chunked_files.py returns.
use ai_agent_first_trust_por.Prelude.{
  ℕ, ◌+◌, ◌≤◌, String, true, false, not, ◌||◌, Option, none, some, List, [], ◌∷◌, ◌++◌, ◌≡◌, refl,
  subst, arith, ltb, ◌==◌, str_eq, eq_iff, length,
}
use ai_agent_first_trust_por.ChunkedFiles.Manifest.{
  Json, ChunkPart, ChunkManifest, ok, parse_manifest, max_total_bytes,
}
use ai_agent_first_trust_por.ChunkedFiles.Transfer.{check_part, read_parts, reassemble}
use ai_agent_first_trust_por.ChunkedFiles.Parsed.{>>=-ok, refuse_if-ok, parse_manifest-WellFormed}

module _ (sha256_hex : List ℕ → String) where
  -- The file is the parts' bytes in order; each part was read whole and has its size and digest.
  abbrev pub IsJoined : (String → ℕ → Option (List ℕ)) → List ChunkPart → List ℕ → Type 0
  IsJoined read_part [] whole = whole ≡ []
  IsJoined read_part (p ∷ ps) whole =
      (bytes : List ℕ) × (others : List ℕ) × (read_part p.name (p.size + 1) ≡ some bytes)
      × (length bytes ≡ p.size)
      × (sha256_hex bytes ≡ p.sha256)
      × IsJoined read_part ps others
      × (whole ≡ bytes ++ others)

  part-checked :
      (p : ChunkPart) (answer : Option (List ℕ)) (bytes : List ℕ)
      → check_part sha256_hex p answer ≡ ok bytes
      → (answer ≡ some bytes) × (length bytes ≡ p.size) × (sha256_hex bytes ≡ p.sha256)
  unfolding check_part
  part-checked p none bytes h = cc
  part-checked p (some answer) bytes h =
      let (long, short, digest, same) : (ltb p.size (length answer) ≡ false)
          × ((length answer == p.size) ≡ true)
          × (str_eq (sha256_hex answer) p.sha256 ≡ true)
          × (answer ≡ bytes) =
        ground arith in
      subst (λ x. (some answer ≡ some x) × (length x ≡ p.size) × (sha256_hex x ≡ p.sha256)) same
        (refl, ground arith, (eq_iff (sha256_hex answer) p.sha256).0 digest)

  parts-IsJoined :
      (read_part : String → ℕ → Option (List ℕ)) (ps : List ChunkPart) (whole : List ℕ)
      → read_parts sha256_hex read_part ps ≡ ok whole
      → IsJoined read_part ps whole
  unfolding read_parts
  parts-IsJoined read_part [] whole h = cc
  parts-IsJoined read_part (p ∷ ps) whole h =
      let (bytes, checked, h1) =
        >>=-ok (check_part sha256_hex p (read_part p.name (p.size + 1))) _ whole h in
      let (others, rest, h2) = >>=-ok (read_parts sha256_hex read_part ps) _ whole h1 in
      let (answer, size, digest) = part-checked p (read_part p.name (p.size + 1)) bytes checked in
      (bytes, others, answer, size, digest, parts-IsJoined read_part ps others rest, cc h2)

  -- A file that is returned is the concatenation of its parts as they were read, each of them read
  -- whole, of its declared size and with its declared digest; the file has the manifest's size and
  -- digest.
  pub reassemble-IsJoined :
      (m : ChunkManifest) (read_part : String → ℕ → Option (List ℕ)) (whole : List ℕ)
      → reassemble sha256_hex m read_part ≡ ok whole
      → IsJoined read_part m.parts whole × (length whole ≡ m.size) × (sha256_hex whole ≡ m.sha256)
  unfolding reassemble
  reassemble-IsJoined m read_part whole h =
      let (joined, reads, h1) = >>=-ok (read_parts sha256_hex read_part m.parts) _ whole h in
      let (Fits, h2) =
        refuse_if-ok (not (length joined == m.size) || not (str_eq (sha256_hex joined) m.sha256)) _
          _ whole h1 in
      let same : joined ≡ whole = cc h2 in
      let (sized, digest) : ((length joined == m.size) ≡ true)
          × (str_eq (sha256_hex joined) m.sha256 ≡ true) =
        ground arith in
      subst (λ x. IsJoined read_part m.parts x × (length x ≡ m.size) × (sha256_hex x ≡ m.sha256))
        same
        (
          parts-IsJoined read_part m.parts joined reads,
          ground arith,
          (eq_iff (sha256_hex joined) m.sha256).0 digest,
        )

  -- A file that is returned for a manifest that was accepted has at most 128 MiB.
  pub reassemble-bounded :
      (loads : List ℕ → Option Json) (manifest : List ℕ) (m : ChunkManifest)
      (read_part : String → ℕ → Option (List ℕ)) (whole : List ℕ)
      → parse_manifest loads manifest ≡ ok m
      → reassemble sha256_hex m read_part ≡ ok whole
      → length whole ≤ max_total_bytes
  reassemble-bounded loads manifest m read_part whole parsed h =
      let (short, good) = parse_manifest-WellFormed loads manifest m parsed in
      let (plain, sha, small, few, total, named) = good in
      let (joined, size, digest) = reassemble-IsJoined m read_part whole h in omega arith
