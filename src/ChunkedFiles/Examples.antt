-- ===== src/ChunkedFiles/Examples.antt =====
-- A file of three bytes, to which the results on app/services/chunked_files.py are applied.
use ai_agent_first_trust_por.Prelude.{
  ℕ, ◌≤◌, String, true, Option, none, some, List, [], ◌∷◌, ◌≡◌, refl, arith, all, length, take,
  str_eq, if◌then◌else◌,
}
use ai_agent_first_trust_por.Auth.Header.{occurs}
use ai_agent_first_trust_por.ChunkedFiles.Manifest.{
  Json, ChunkManifest, ok, is_plain, is_sha256, parse_manifest, max_manifest_bytes, check_manifest,
  check_basename, check_size, check_sha, array_of, is_text, parse_parts, parse_part, members_of,
  part_name, padded,
}
use ai_agent_first_trust_por.ChunkedFiles.Transfer.{
  check_part, read_parts, reassemble, slices, part_entry, manifest_of, split,
}
use ai_agent_first_trust_por.ChunkedFiles.Parsed.{WellFormed, parse_manifest-WellFormed}
use ai_agent_first_trust_por.ChunkedFiles.RoundTrip.{Stored, split-round_trip}

-- digests that tell files by their length
abbrev toy : List ℕ → String
toy [] = "0000000000000000000000000000000000000000000000000000000000000000"
toy (_ ∷ []) = "1111111111111111111111111111111111111111111111111111111111111111"
toy (_ ∷ _ ∷ _) = "2222222222222222222222222222222222222222222222222222222222222222"

toy-is_sha256 : (bytes : List ℕ) → is_sha256 (toy bytes) ≡ true
unfolding is_sha256
toy-is_sha256 [] = refl
toy-is_sha256 (_ ∷ []) = refl
toy-is_sha256 (_ ∷ _ ∷ _) = refl

abbrev data_bytes : List ℕ
data_bytes = 10 ∷ 20 ∷ 30 ∷ []

abbrev parts : List (String × List ℕ)
parts = ("a.part-0001", 10 ∷ 20 ∷ []) ∷ ("a.part-0002", 30 ∷ []) ∷ []

abbrev stored_part : String → ℕ → Option (List ℕ)
stored_part pname n =
    if str_eq pname "a.part-0001"
    then some (take n (10 ∷ 20 ∷ []))
    else if str_eq pname "a.part-0002"
    then some (take n (30 ∷ []))
    else none

abbrev manifest : ChunkManifest
manifest = record {
  name = "a";
  size = 3;
  sha256 = toy data_bytes;
  parts =
      record { name = "a.part-0001"; size = 2; sha256 = toy (10 ∷ 20 ∷ []) }
      ∷ record { name = "a.part-0002"; size = 1; sha256 = toy (30 ∷ []) }
      ∷ [];
}

abbrev written : List ℕ
written = 1 ∷ []

-- a reader that knows this manifest only
abbrev loads : List ℕ → Option Json
loads bytes = some (manifest_of toy "a" data_bytes parts)

parsed : parse_manifest loads written ≡ ok manifest
unfolding parse_manifest manifest_of check_manifest is_text check_basename is_plain occurs
    check_size check_sha is_sha256 array_of parse_parts members_of part_entry parse_part part_name
    padded
parsed = refl

read : reassemble toy manifest stored_part ≡ ok data_bytes
unfolding reassemble read_parts check_part
read = refl

parse_manifest-WellFormed_example : (length written ≤ max_manifest_bytes) × WellFormed manifest
parse_manifest-WellFormed_example = parse_manifest-WellFormed loads written manifest parsed

was_split : split toy (λ j. written) "a" data_bytes 2 ≡ ok (written, parts)
unfolding split is_plain occurs slices part_name padded
was_split = refl

plain_parts : all (λ (p : String × List ℕ). is_plain p.0) parts ≡ true
unfolding is_plain occurs
plain_parts = refl

stored : Stored stored_part parts
stored = (λ n. refl, (λ n. refl, tt))

split-round_trip_example :
    (m : ChunkManifest) × (parse_manifest loads written ≡ ok m)
    × (reassemble toy m stored_part ≡ ok data_bytes)
split-round_trip_example =
    split-round_trip toy toy-is_sha256 (λ j. written) loads "a" data_bytes 2 written parts
      stored_part was_split refl (omega arith) plain_parts stored
