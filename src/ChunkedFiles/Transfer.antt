-- ===== src/ChunkedFiles/Transfer.antt =====
-- `reassemble` and `split` of app/services/chunked_files.py. SHA-256 and the JSON codec are
-- arguments.
use ai_agent_first_trust_por.Prelude.{
  ℕ, zero, suc, ◌+◌, ◌-◌, ◌/◌, String, not, ◌||◌, Option, none, some, List, [], ◌∷◌, ◌++◌, ltb,
  ◌==◌, str_eq, length, take, drop, if◌then◌else◌,
}
use ai_agent_first_trust_por.ChunkedFiles.Manifest.{
  Json, Elements, no_elements, element, no_members, member, natural, text, array, object, ChunkPart,
  ChunkManifest, Result, ok, err, ◌>>=◌, refuse_if, is_plain, part_name, bad_name, unreadable_part,
  part_too_large, truncated_part, corrupted_part, corrupted_file, bad_part_size, file_too_large,
  needs_too_many_parts, max_total_bytes, max_parts, format,
}

module _ (sha256_hex : List ℕ → String) where
  -- the checks of one part's bytes; `none` is an `OSError` or a `LookupError`
  unfoldable pub check_part : ChunkPart → Option (List ℕ) → Result (List ℕ)
  check_part p none = err unreadable_part
  check_part p (some bytes) =
      if ltb p.size (length bytes)
      then err part_too_large
      else if not (length bytes == p.size)
      then err truncated_part
      else if not (str_eq (sha256_hex bytes) p.sha256)
      then err corrupted_part
      else ok bytes

  -- the loop over the parts, and `b"".join`
  unfoldable pub read_parts :
      (read_part : String → ℕ → Option (List ℕ)) → List ChunkPart → Result (List ℕ)
  read_parts read_part [] = ok []
  read_parts read_part (p ∷ ps) =
      let rest = read_parts read_part ps in
      check_part p (read_part p.name (p.size + 1)) >>= λ bytes.
      rest >>= λ others. ok (bytes ++ others)

  unfoldable pub reassemble :
      ChunkManifest → (read_part : String → ℕ → Option (List ℕ)) → Result (List ℕ)
  reassemble m read_part = read_parts read_part m.parts >>= λ whole.
      refuse_if (not (length whole == m.size) || not (str_eq (sha256_hex whole) m.sha256))
        corrupted_file (ok whole)

  -- `data[offset:offset + part_size]` for each offset of the range, with its part's name; the fuel is
  -- the number of bytes
  unfoldable pub slices : String → (part_size fuel index : ℕ) → List ℕ → List (String × List ℕ)
  slices name part_size zero index bytes = []
  slices name part_size (suc fuel) index [] = []
  slices name part_size (suc fuel) index (b ∷ bytes) =
      (part_name name index, take part_size (b ∷ bytes))
      ∷ slices name part_size fuel (suc index) (drop part_size (b ∷ bytes))

  unfoldable pub part_entry : String × List ℕ → Json
  part_entry (pname, chunk) = object (
      member "name" (text pname) (
        member "size" (natural (length chunk))
          (member "sha256" (text (sha256_hex chunk)) no_members)))

  unfoldable pub part_entries : List (String × List ℕ) → Elements
  part_entries [] = no_elements
  part_entries (p ∷ parts) = element (part_entry p) (part_entries parts)

  unfoldable pub manifest_of : String → List ℕ → List (String × List ℕ) → Json
  unfolding part_entries
  manifest_of name bytes parts = object (
      member "format" (text format) (
        member "name" (text name) (
          member "size" (natural (length bytes)) (
            member "sha256" (text (sha256_hex bytes))
              (member "parts" (array (part_entries parts)) no_members)))))

  -- `split`: the manifest's bytes and the parts
  unfoldable pub split :
      (dumps : Json → List ℕ)
      → String
      → List ℕ
      → (part_size : ℕ) → Result (List ℕ × List (String × List ℕ))
  split dumps name bytes part_size =
      if not (is_plain name)
      then err bad_name
      else if part_size == 0
      then err bad_part_size
      else if ltb max_total_bytes (length bytes)
      then err file_too_large
      else if ltb max_parts ((length bytes + part_size - 1) / part_size)
      then err needs_too_many_parts
      else let parts = slices name part_size (length bytes) 1 bytes in
        ok (dumps (manifest_of name bytes parts), parts)
