-- ===== src/ChunkedFiles/Parsed.antt =====
-- What a manifest that `parse_manifest` of app/services/chunked_files.py accepts is like.
use ai_agent_first_trust_por.Prelude.{
  ℕ, suc, ◌≤◌, ◌<◌, String, Bool, true, false, not, ◌&&◌, Option, none, some, List, [], ◌∷◌, ◌≡◌,
  refl, arith, ltb, ◌==◌, eq_iff, subst, length,
}
use ai_agent_first_trust_por.ChunkedFiles.Manifest.{
  Json, Elements, no_elements, element, Members, get, ChunkPart, ChunkManifest, ChunkError, Result,
  ok, err, ◌>>=◌, refuse_if, is_plain, check_basename, check_size, is_sha256, check_sha, part_name,
  parse_parts, total_size, count_elements, check_manifest, check_document, parse_manifest,
  max_parts, max_total_bytes, max_manifest_bytes, array, object, text, natural, members_of,
  parse_part, array_of, is_text, format, null, other_number, boolean, negative,
}

-- A chain of checks that succeeds has steps that succeed.
pub >>=-ok {ℓ κ} :
    {A : Type ℓ} {B : Type κ} (m : Result A) (f : A → Result B) (b : B)
    → (m >>= f) ≡ ok b
    → (a : A) × (m ≡ ok a) × (f a ≡ ok b)
>>=-ok (ok a) f b h = (a, refl, h)
>>=-ok (err c) f b h = cc

pub refuse_if-ok {ℓ} :
    {A : Type ℓ} (c : Bool) (e : ChunkError) (r : Result A) (a : A)
    → refuse_if c e r ≡ ok a
    → (c ≡ false) × (r ≡ ok a)
refuse_if-ok true e r a h = cc
refuse_if-ok false e r a h = (refl, h)

-- The parts are named after the file, from a number on, with plain names; none is empty; each has a
-- digest of the right form.
abbrev pub Named : String → ℕ → List ChunkPart → Type 0
Named name index [] = Unit
Named name index (p ∷ ps) =
    (p.name ≡ part_name name index)
    × (is_plain p.name ≡ true)
    × (0 < p.size)
    × (is_sha256 p.sha256 ≡ true)
    × Named name (suc index) ps

abbrev pub WellFormed : ChunkManifest → Type 0
WellFormed m =
    (is_plain m.name ≡ true)
    × (is_sha256 m.sha256 ≡ true)
    × (m.size ≤ max_total_bytes)
    × (length m.parts ≤ max_parts)
    × (total_size m.parts ≡ m.size)
    × Named m.name 1 m.parts

basename-plain : (j : Json) (s : String) → check_basename j ≡ ok s → is_plain s ≡ true
unfolding check_basename
basename-plain j s h = ground arith

sha-form : (j : Json) (s : String) → check_sha j ≡ ok s → is_sha256 s ≡ true
unfolding check_sha
sha-form j s h = ground arith

part-good :
    (name : String) (index : ℕ) (raw : Members) (p : ChunkPart)
    → parse_part name index raw ≡ ok p
    → (p.name ≡ part_name name index)
      × (is_plain p.name ≡ true)
      × (0 < p.size)
      × (is_sha256 p.sha256 ≡ true)
unfolding parse_part
part-good name index raw p h = ground (
  arith,
  basename-plain (get "name" raw) p.name,
  sha-form (get "sha256" raw) p.sha256,
  eq_iff p.name (part_name name index),
)

parts-Named :
    (name : String) (index : ℕ) (raws : Elements) (ps : List ChunkPart)
    → parse_parts name index raws ≡ ok ps
    → Named name index ps × (length ps ≡ count_elements raws)
unfolding parse_parts
parts-Named name index no_elements [] h = (tt, refl)
parts-Named name index no_elements (p ∷ ps) h = cc
parts-Named name index (element raw raws) ps h =
    let (members, is_object, h1) = >>=-ok (members_of raw) _ ps h in
    let (p, first, h2) = >>=-ok (parse_part name index members) _ ps h1 in
    let (others, rest, h3) = >>=-ok (parse_parts name (suc index) raws) _ ps h2 in
    let (named, count) = parts-Named name (suc index) raws others rest in
    let same : p ∷ others ≡ ps = cc h3 in
    let (a, b, c, d) = part-good name index members p first in
    subst (λ x. Named name index x × (length x ≡ suc (count_elements raws))) same
      ((a, b, c, d, named), omega arith)

checked-WellFormed : (doc : Members) (m : ChunkManifest) → check_manifest doc ≡ ok m → WellFormed m
unfolding check_manifest
checked-WellFormed doc m h =
    let (formatted, h0) = refuse_if-ok (not (is_text (get "format" doc) format)) _ _ m h in
    let (name, is_name, h1) = >>=-ok (check_basename (get "name" doc)) _ m h0 in
    let (size, is_size, h2) = >>=-ok (check_size (get "size" doc)) _ m h1 in
    let (small, h3) = refuse_if-ok (ltb max_total_bytes size) _ _ m h2 in
    let (sha, sha_is, h4) = >>=-ok (check_sha (get "sha256" doc)) _ m h3 in
    let (raws, are_raws, h5) = >>=-ok (array_of (get "parts" doc)) _ m h4 in
    let (few, h6) = refuse_if-ok (ltb max_parts (count_elements raws)) _ _ m h5 in
    let (some_parts, h7) = refuse_if-ok (count_elements raws == 0 && not (size == 0)) _ _ m h6 in
    let (parts, parsed, h8) = >>=-ok (parse_parts name 1 raws) _ m h7 in
    let (total, h9) = refuse_if-ok (not (total_size parts == size)) _ _ m h8 in
    let (named, count) = parts-Named name 1 raws parts parsed in
    let same : record { name = name; size = size; sha256 = sha; parts = parts } ≡ m = cc h9 in
    subst WellFormed same (
      basename-plain (get "name" doc) name is_name,
      sha-form (get "sha256" doc) sha sha_is,
      ground arith,
      ground arith,
      ground arith,
      named,
    )

document-WellFormed : (j : Option Json) (m : ChunkManifest) → check_document j ≡ ok m → WellFormed m
unfolding check_document
document-WellFormed none m h = cc
document-WellFormed (some (object doc)) m h = checked-WellFormed doc m h
document-WellFormed (some null) m h = cc
document-WellFormed (some other_number) m h = cc
document-WellFormed (some (boolean b)) m h = cc
document-WellFormed (some (natural n)) m h = cc
document-WellFormed (some (negative n)) m h = cc
document-WellFormed (some (text s)) m h = cc
document-WellFormed (some (array es)) m h = cc

-- Whatever the JSON reader makes of it, a manifest that is accepted has at most 1 MiB, describes at
-- most 128 MiB in at most 32 parts, and each of its parts is named after the file and the part's
-- place, holds at least one byte and has a plain name; the sizes of the parts add up to the file's.
pub parse_manifest-WellFormed :
    (loads : List ℕ → Option Json) (bytes : List ℕ) (m : ChunkManifest)
    → parse_manifest loads bytes ≡ ok m
    → (length bytes ≤ max_manifest_bytes) × WellFormed m
unfolding parse_manifest
parse_manifest-WellFormed loads bytes m h =
    let (short, rest) = refuse_if-ok (ltb max_manifest_bytes (length bytes)) _ _ m h in
    (ground arith, document-WellFormed (loads bytes) m rest)
