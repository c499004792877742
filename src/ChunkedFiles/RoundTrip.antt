-- ===== src/ChunkedFiles/RoundTrip.antt =====
-- What `split` of app/services/chunked_files.py writes, `parse_manifest` and `reassemble` read back.
use native.Mathlib.Nat.{le-div_iff_mul-le}
use ai_agent_first_trust_por.Prelude.{
  ℕ, suc, ◌+◌, ◌-◌, ◌/◌, ◌≤◌, ◌<◌, String, true, false, not, ◌&&◌, Option, some, List, [], ◌∷◌, ◌≡◌,
  refl, sym, ap, ◌∙◌, subst, arith, ltb, ◌==◌, str_eq, eq_iff, eq_refl, all, and-left, and-right,
  map, length, length-append, take, take-all,
}
use ai_agent_first_trust_por.ChunkedFiles.Manifest.{
  Json, ChunkPart, ChunkManifest, ok, total_size, parse_manifest, max_total_bytes,
  max_manifest_bytes, max_parts, is_plain, is_sha256, part_name, check_basename, check_size,
  check_sha, parse_part, parse_parts, members_of, array_of, is_text, check_manifest, check_document,
  count_elements, member, no_members, text, natural,
}
use ai_agent_first_trust_por.ChunkedFiles.Transfer.{
  check_part, read_parts, reassemble, slices, part_entry, part_entries, manifest_of, split,
}
use ai_agent_first_trust_por.ChunkedFiles.Slices.{
  joined, Placed, parts_of_bytes, slices-joined, slices-Placed, slices-count,
}

-- Reading a part gives as many of its first bytes as are asked for.
abbrev pub Stored : (String → ℕ → Option (List ℕ)) → List (String × List ℕ) → Type 0
Stored read_part [] = Unit
Stored read_part (p ∷ ps) = ((n : ℕ) → read_part p.0 n ≡ some (take n p.1)) × Stored read_part ps

module _ (sha256_hex : List ℕ → String) where
  -- the record of a part, as `parse_manifest` makes it
  part_of : String × List ℕ → ChunkPart
  part_of (pname, chunk) = record { name = pname; size = length chunk; sha256 = sha256_hex chunk }

  total-joined : (ps : List (String × List ℕ)) → total_size (map part_of ps) ≡ length (joined ps)
  unfolding part_of
  total-joined [] = refl
  total-joined (p ∷ ps) = omega (arith, total-joined ps, length-append p.1 (joined ps))

  count-entries :
      (ps : List (String × List ℕ)) → count_elements (part_entries sha256_hex ps) ≡ length ps
  unfolding part_entries
  count-entries [] = refl
  count-entries (p ∷ ps) = ap suc (count-entries ps)

  -- the manifest that `parse_manifest` reads
  manifest_record : String → List ℕ → List (String × List ℕ) → ChunkManifest
  manifest_record name bytes ps = record {
    name = name;
    size = length bytes;
    sha256 = sha256_hex bytes;
    parts = map part_of ps;
  }

  module _ (hex : (bytes : List ℕ) → is_sha256 (sha256_hex bytes) ≡ true) where
    entry-parsed :
        (name : String) (index : ℕ) (pname : String) (chunk : List ℕ)
        → pname ≡ part_name name index
        → 0 < length chunk
        → is_plain pname ≡ true
        → parse_part name index (
            member "name" (text pname) (
              member "size"
                (natural (length chunk))
                (member "sha256" (text (sha256_hex chunk)) no_members)))
          ≡ ok (part_of (pname, chunk))
    unfolding parse_part check_basename check_size check_sha part_of
    entry-parsed name index pname chunk named pos plain =
        let same : str_eq pname (part_name name index) ≡ true =
          (eq_iff pname (part_name name index)).1 named in
        let nonempty : (length chunk == 0) ≡ false = ground arith in
        rw plain (rw same (rw nonempty (rw (hex chunk) refl)))

    entries-parsed :
        (name : String) (index : ℕ) (ps : List (String × List ℕ))
        → Placed name index ps
        → all (λ p. is_plain p.0) ps ≡ true
        → parse_parts name index (part_entries sha256_hex ps) ≡ ok (map part_of ps)
    unfolding part_entries part_entry parse_parts members_of
    entries-parsed name index [] placed plain = refl
    entries-parsed name index ((pname, chunk) ∷ ps) (named, pos, placed) plain =
        rw (entry-parsed name index pname chunk named pos (and-left (is_plain pname) _ plain))
          (rw (entries-parsed name (suc index) ps placed (and-right (is_plain pname) _ plain)) refl)

    manifest-parsed :
        (name : String) (bytes : List ℕ) (ps : List (String × List ℕ))
        → is_plain name ≡ true
        → length bytes ≤ max_total_bytes
        → length ps ≤ max_parts
        → joined ps ≡ bytes
        → Placed name 1 ps
        → all (λ p. is_plain p.0) ps ≡ true
        → check_document (some (manifest_of sha256_hex name bytes ps))
          ≡ ok (manifest_record name bytes ps)
    unfolding check_document manifest_of check_manifest check_basename check_size check_sha array_of
        is_text manifest_record
    manifest-parsed name bytes ps plain small few whole placed plain_parts =
        let within : ltb max_total_bytes (length bytes) ≡ false = ground arith in
        let few_parts : ltb max_parts (count_elements (part_entries sha256_hex ps)) ≡ false =
          ground (arith, count-entries ps) in
        let total : total_size (map part_of ps) ≡ length bytes =
          total-joined ps ∙ ap length whole in
        let adds_up : (total_size (map part_of ps) == length bytes) ≡ true = ground arith in
        let has_parts : (count_elements (part_entries sha256_hex ps) == 0
              && not (length bytes == 0))
            ≡ false =
          rw (count-entries ps) (parts_of_bytes ps bytes whole) in
        rw plain (
          rw within (
            rw (hex bytes) (
              rw few_parts (
                rw has_parts
                  (rw (entries-parsed name 1 ps placed plain_parts) (rw adds_up refl))))))

  parts-read :
      (read_part : String → ℕ → Option (List ℕ)) (ps : List (String × List ℕ))
      → Stored read_part ps
      → read_parts sha256_hex read_part (map part_of ps) ≡ ok (joined ps)
  unfolding read_parts check_part part_of
  parts-read read_part [] stored = refl
  parts-read read_part ((pname, chunk) ∷ ps) (here, rest) =
      let answer : read_part pname (length chunk + 1) ≡ some chunk =
        here (length chunk + 1) ∙ ap some (take-all (length chunk + 1) chunk (omega arith)) in
      let not_long : ltb (length chunk) (length chunk) ≡ false = ground arith in
      let whole : (length chunk == length chunk) ≡ true = ground arith in
      rw answer (
        rw not_long
          (rw whole (rw (eq_refl (sha256_hex chunk)) (rw (parts-read read_part ps rest) refl))))

  reassembled :
      (name : String) (bytes : List ℕ) (ps : List (String × List ℕ))
      (read_part : String → ℕ → Option (List ℕ))
      → joined ps ≡ bytes
      → Stored read_part ps
      → reassemble sha256_hex (manifest_record name bytes ps) read_part ≡ ok bytes
  unfolding reassemble manifest_record
  reassembled name bytes ps read_part whole stored =
      let sized : (length bytes == length bytes) ≡ true = ground arith in
      rw (parts-read read_part ps stored)
        (rw whole (rw sized (rw (eq_refl (sha256_hex bytes)) refl)))

  split-parts :
      (dumps : Json → List ℕ) (name : String) (bytes : List ℕ) (part_size : ℕ) (manifest : List ℕ)
      (ps : List (String × List ℕ))
      → split sha256_hex dumps name bytes part_size ≡ ok (manifest, ps)
      → (is_plain name ≡ true)
        × (0 < part_size)
        × (length bytes ≤ max_total_bytes)
        × ((length bytes + part_size - 1) / part_size ≤ max_parts)
        × (ps ≡ slices sha256_hex name part_size (length bytes) 1 bytes)
        × (manifest ≡ dumps (manifest_of sha256_hex name bytes ps))
  unfolding split
  split-parts dumps name bytes part_size manifest ps h =
      let parts : List (String × List ℕ) =
        slices sha256_hex name part_size (length bytes) 1 bytes in
      let made : List ℕ × List (String × List ℕ) =
        (dumps (manifest_of sha256_hex name bytes parts), parts) in
      let (plain, pos, small, few, same) : (is_plain name ≡ true)
          × (0 < part_size)
          × (length bytes ≤ max_total_bytes)
          × ((length bytes + part_size - 1) / part_size ≤ max_parts)
          × (made ≡ (manifest, ps)) =
        ground arith in
      let are : parts ≡ ps = ap (λ x. x.1) same in
      (
        plain,
        pos,
        small,
        few,
        sym are,
        sym (ap (λ x. x.0) same) ∙ ap (λ x. dumps (manifest_of sha256_hex name bytes x)) are,
      )

  slices-few :
      (name : String) (bytes : List ℕ) (part_size : ℕ)
      → 0 < part_size
      → (length bytes + part_size - 1) / part_size ≤ max_parts
      → length (slices sha256_hex name part_size (length bytes) 1 bytes) ≤ max_parts
  slices-few name bytes part_size pos few = omega (
    arith,
    (le-div_iff_mul-le pos).1 (slices-count sha256_hex name part_size (length bytes) 1 bytes pos),
  )

  -- The manifest and parts of a split, stored so that reading a part gives as many of its first bytes
  -- as are asked for, read back as the bytes that were split. This supposes that the manifest is not
  -- over its limit, that the JSON reader reads from the manifest what the writer wrote, that a digest has the form of
  -- one, and that the parts' names are plain.
  pub split-round_trip :
      (hex : (bytes : List ℕ) → is_sha256 (sha256_hex bytes) ≡ true) (dumps : Json → List ℕ)
      (loads : List ℕ → Option Json) (name : String) (bytes : List ℕ) (part_size : ℕ)
      (manifest : List ℕ) (ps : List (String × List ℕ)) (read_part : String → ℕ → Option (List ℕ))
      → split sha256_hex dumps name bytes part_size ≡ ok (manifest, ps)
      → loads (dumps (manifest_of sha256_hex name bytes ps))
        ≡ some (manifest_of sha256_hex name bytes ps)
      → length manifest ≤ max_manifest_bytes
      → all (λ p. is_plain p.0) ps ≡ true
      → Stored read_part ps
      → (m : ChunkManifest) × (parse_manifest loads manifest ≡ ok m)
        × (reassemble sha256_hex m read_part ≡ ok bytes)
  split-round_trip hex dumps loads name bytes part_size manifest ps read_part h reads_back short
        plain_parts stored =
      let (plain, pos, small, few, slices_are, manifest_is) =
        split-parts dumps name bytes part_size manifest ps h in
      let whole : joined ps ≡ bytes =
        ap joined slices_are
        ∙ slices-joined sha256_hex name part_size (length bytes) 1 bytes pos (omega arith) in
      let placed : Placed name 1 ps =
        subst (Placed name 1) (sym slices_are)
          (slices-Placed sha256_hex name part_size (length bytes) 1 bytes pos) in
      let count : length ps ≤ max_parts =
        subst (λ x. length x ≤ max_parts) (sym slices_are)
          (slices-few name bytes part_size pos few) in
      let document : loads manifest ≡ some (manifest_of sha256_hex name bytes ps) =
        ap loads manifest_is ∙ reads_back in
      let Fits : ltb max_manifest_bytes (length manifest) ≡ false = ground arith in
      (
        manifest_record name bytes ps,
        unfold parse_manifest in
            rw Fits (
              rw document
                (manifest-parsed hex name bytes ps plain small count whole placed plain_parts)),
        reassembled name bytes ps read_part whole stored,
      )
