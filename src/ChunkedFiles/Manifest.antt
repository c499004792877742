-- ===== src/ChunkedFiles/Manifest.antt =====
-- Manifests: the data and `parse_manifest` of app/services/chunked_files.py. Bytes are numbers. The
-- JSON codec (`json.loads` after UTF-8 decoding) is an argument; a JSON object is its `dict`, whose
-- keys differ.
use Prim.Native.String.{◌++◌}
use ai_agent_first_trust_por.Prelude.{
  ℕ, suc, ◌+◌, ◌-◌, ◌/◌, ◌%◌, String, Bool, true, false, not, ◌&&◌, ◌||◌, Option, none, some, List,
  [], ◌∷◌, ltb, leb, ◌==◌, str_eq, length, if◌then◌else◌,
}
use ai_agent_first_trust_por.Auth.Header.{codes, occurs}

mutual
  pub data Json : Type 0 where
    null other_number : Json
    boolean : Bool → Json
    natural negative : ℕ → Json
    text : String → Json
    array : Elements → Json
    object : Members → Json

  pub data Elements : Type 0 where
    no_elements : Elements
    element : Json → Elements → Elements

  pub data Members : Type 0 where
    no_members : Members
    member : String → Json → Members → Members

abbrev pub count_elements : Elements → ℕ
count_elements no_elements = 0
count_elements (element e es) = suc (count_elements es)

-- the constants of the module
abbrev pub max_manifest_bytes : ℕ
max_manifest_bytes = 1048576

abbrev pub max_parts : ℕ
max_parts = 32

abbrev pub max_total_bytes : ℕ
max_total_bytes = 134217728

abbrev pub default_part_size : ℕ
default_part_size = 5242880

abbrev pub format : String
format = "chunked-file/v1"

-- `ChunkPart` and `ChunkManifest`
pub record ChunkPart : Type 0 where
  pub name : String
  pub size : ℕ
  pub sha256 : String

pub record ChunkManifest : Type 0 where
  pub name : String
  pub size : ℕ
  pub sha256 : String
  pub parts : List ChunkPart

-- what is wrong, by its message
pub data ChunkError : Type 0 where
  manifest_too_large not_json not_an_object unsupported_format bad_name bad_size bad_sha256
        size_over_limit :
      ChunkError
  parts_not_a_list too_many_parts no_parts part_not_an_object misnamed_part empty_part wrong_total :
      ChunkError
  unreadable_part part_too_large truncated_part corrupted_part corrupted_file : ChunkError
  bad_part_size file_too_large needs_too_many_parts : ChunkError

pub data Result {ℓ} (A : Type ℓ) : Type ℓ where
  ok : A → Result A
  err : ChunkError → Result A

infixl 10 ◌>>=◌
abbrev pub ◌>>=◌ {ℓ κ} : {A : Type ℓ} {B : Type κ} → Result A → (A → Result B) → Result B
ok a >>= f = f a
err c >>= f = err c

-- `if bad: raise`
abbrev pub refuse_if {ℓ} : {A : Type ℓ} → Bool → ChunkError → Result A → Result A
refuse_if bad e r = if bad then err e else r

-- `doc.get(key)`: a missing key is `None`
abbrev pub get : String → Members → Json
get k no_members = null
get k (member name value members) =
    let rest = get k members in if str_eq name k then value else rest

-- no separator, NUL or two dots, and not empty
unfoldable pub is_plain : String → Bool
is_plain s =
    not (str_eq s "")
    && not (
        occurs (47 ∷ []) (codes s)
        || occurs (92 ∷ []) (codes s)
        || occurs (0 ∷ []) (codes s)
        || occurs (46 ∷ 46 ∷ []) (codes s))

-- `_check_basename`
unfoldable pub check_basename : Json → Result String
check_basename (text s) = if is_plain s then ok s else err bad_name
check_basename _ = err bad_name

-- `_check_size`
unfoldable pub check_size : Json → Result ℕ
check_size (natural n) = ok n
check_size _ = err bad_size

-- `_SHA256_RE`: 64 lowercase hex digits, then the end or a newline at the end
is_hex_digit : ℕ → Bool
is_hex_digit c = (leb 48 c && leb c 57) || (leb 97 c && leb c 102)

hex_digits : ℕ → List ℕ → Bool
hex_digits n [] = n == 0
hex_digits n (c ∷ s) =
    let rest = hex_digits (n - 1) s in
    if n == 0 then c == 10 && (elim s [ [] ↦ true | _ ∷ _ ↦ false ]) else is_hex_digit c && rest

unfoldable pub is_sha256 : String → Bool
unfolding hex_digits is_hex_digit
is_sha256 s = hex_digits 64 (codes s)

-- `_check_sha`
unfoldable pub check_sha : Json → Result String
check_sha (text s) = if is_sha256 s then ok s else err bad_sha256
check_sha _ = err bad_sha256

-- `f"{index:04d}"` of an index below 10000
digit : ℕ → String
digit n =
    if n == 0
    then "0"
    else if n == 1
    then "1"
    else if n == 2
    then "2"
    else if n == 3
    then "3"
    else if n == 4
    then "4"
    else if n == 5
    then "5"
    else if n == 6
    then "6"
    else if n == 7
    then "7"
    else if n == 8
    then "8"
    else "9"

unfoldable pub padded : ℕ → String
unfolding digit
padded n = digit (n / 1000 % 10) ++ digit (n / 100 % 10) ++ digit (n / 10 % 10) ++ digit (n % 10)

unfoldable pub part_name : String → ℕ → String
part_name name index = name ++ ".part-" ++ padded index

-- one turn of the loop over the parts
unfoldable pub parse_part : String → ℕ → Members → Result ChunkPart
parse_part name index raw = check_basename (get "name" raw) >>= λ pname.
    refuse_if (not (str_eq pname (part_name name index))) misnamed_part (
      check_size (get "size" raw) >>= λ psize. refuse_if (psize == 0) empty_part (
        check_sha (get "sha256" raw) >>= λ sha.
        ok (record { name = pname; size = psize; sha256 = sha })))

unfoldable pub members_of : Json → Result (Members)
members_of (object raw) = ok raw
members_of _ = err part_not_an_object

unfoldable pub parse_parts : String → ℕ → Elements → Result (List ChunkPart)
parse_parts name index no_elements = ok []
parse_parts name index (element raw raws) =
    let rest = parse_parts name (suc index) raws in
    members_of raw >>= λ members. parse_part name index members >>= λ p. rest >>= λ ps. ok (p ∷ ps)

abbrev pub total_size : List ChunkPart → ℕ
total_size [] = 0
total_size (p ∷ ps) = p.size + total_size ps

unfoldable pub array_of : Json → Result (Elements)
array_of (array raws) = ok raws
array_of _ = err parts_not_a_list

unfoldable pub is_text : Json → String → Bool
is_text (text s) t = str_eq s t
is_text _ t = false

-- the checks of a parsed document, in their order
unfoldable pub check_manifest : Members → Result ChunkManifest
check_manifest doc = refuse_if (not (is_text (get "format" doc) format)) unsupported_format (
    check_basename (get "name" doc) >>= λ name. check_size (get "size" doc) >>= λ size.
    refuse_if (ltb max_total_bytes size) size_over_limit (
      check_sha (get "sha256" doc) >>= λ sha. array_of (get "parts" doc) >>= λ raws.
      refuse_if (ltb max_parts (count_elements raws)) too_many_parts (
        refuse_if (count_elements raws == 0 && not (size == 0)) no_parts (
          parse_parts name 1 raws >>= λ parts.
          refuse_if (not (total_size parts == size)) wrong_total
            (ok (record { name = name; size = size; sha256 = sha; parts = parts }))))))

unfoldable pub check_document : Option Json → Result ChunkManifest
check_document none = err not_json
check_document (some (object doc)) = check_manifest doc
check_document (some _) = err not_an_object

-- `parse_manifest` of bytes
unfoldable pub parse_manifest : (loads : List ℕ → Option Json) → List ℕ → Result ChunkManifest
unfolding check_document
parse_manifest loads data_bytes =
    refuse_if (ltb max_manifest_bytes (length data_bytes)) manifest_too_large
      (check_document (loads data_bytes))
