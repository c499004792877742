-- ===== src/StoreSync/Fetch.antt =====
-- How a version is read and what is decided before any write: `stored_checksum` and the readers of
-- app/services/evidence_store/store.py, and `fetch_version` of app/services/evidence_store/sync.py.
-- A digest is its 32 bytes. SHA-256, base64 and the kinds' content checks are arguments, as is what S3
-- answers; of the notes only the decision is kept.
use ai_agent_first_trust_por.Prelude.{
  ℕ, zero, suc, ◌*◌, Bool, true, false, not, ◌&&◌, ◌||◌, Option, none, some, List, [], ◌∷◌, ◌++◌,
  ltb, leb, ◌==◌, length, is_some, if◌then◌else◌,
}
use ai_agent_first_trust_por.Auth.Header.{same_text}
use ai_agent_first_trust_por.EvidenceKeys.{
  Classified, decision_log, decision_log_sidecar, pentest_evidence, evidence_document, unmapped,
  is_digit, number,
}
use ai_agent_first_trust_por.StoreSync.Tally.{Status, recorded, rejected, non_conforming, too_large}

abbrev pub Bytes : Type 0
Bytes = List ℕ

-- `ChecksumType`; an empty one is as none
pub data ChecksumType : Type 0 where
  full_object_type composite_type other_type : ChecksumType

-- `StoredChecksum`
pub data StoredChecksum : Type 0 where
  full : Bytes → StoredChecksum
  composite : List ℕ → StoredChecksum
  no_checksum malformed : StoredChecksum

-- `str.partition("-")`: the text before it, and what follows it
abbrev after_first : ℕ → List ℕ × Option (List ℕ) → List ℕ × Option (List ℕ)
after_first c (a, o) = (c ∷ a, o)

unfoldable pub partition : List ℕ → List ℕ × Option (List ℕ)
partition [] = ([], none)
partition (c ∷ s) =
    let rest = after_first c (partition s) in if c == b'-' then ([], some s) else rest

-- up to `n` digits, and then the end or a final newline, where `$` matches too
digits_line : ℕ → List ℕ → Bool
digits_line n [] = true
digits_line zero (c ∷ s) = c == 10 && same_text s []
digits_line (suc n) (c ∷ s) =
    let rest = digits_line n s in if is_digit c then rest else c == 10 && same_text s []

-- `_PARTS_RE` and `int(parts) <= MAX_PARTS`
strip_newline : List ℕ → List ℕ
strip_newline [] = []
strip_newline (c ∷ s) = let rest = strip_newline s in if c == 10 then [] else c ∷ rest

abbrev pub max_parts : ℕ
max_parts = 10000

unfoldable pub is_parts : List ℕ → Bool
unfolding digits_line strip_newline
is_parts [] = false
is_parts (c ∷ s) =
    leb 49 c && (leb c 57 && (digits_line 4 s && leb (number (strip_newline (c ∷ s))) max_parts))

abbrev is_full_type : Option ChecksumType → Bool
is_full_type none = false
is_full_type (some t) = elim t [ full_object_type ↦ true | _ ↦ false ]

abbrev is_composite_type : Option ChecksumType → Bool
is_composite_type none = false
is_composite_type (some t) = elim t [ composite_type ↦ true | _ ↦ false ]

abbrev is_other_type : Option ChecksumType → Bool
is_other_type none = false
is_other_type (some t) = elim t [ other_type ↦ true | _ ↦ false ]

bad_suffix : Option ChecksumType → Option (List ℕ) → Bool
bad_suffix type none = false
bad_suffix type (some parts) = is_full_type type || not (is_parts parts)

-- a value whose digest part is decoded, or is not base64
decoded : List ℕ → Option ChecksumType → Bool → Option Bytes → StoredChecksum
decoded value type has_suffix none = malformed
decoded value type has_suffix (some raw) =
    if not (length raw == 32)
    then malformed
    else if has_suffix || is_composite_type type
    then composite value
    else full raw

-- a version's stored size, checksum and retention, as `HeadObject` answers
pub record Head : Type 0 where
  pub content_length : Option ℕ
  pub checksum_sha256 : List ℕ
  pub checksum_type : Option ChecksumType

-- what reading a body does: the chunks, or an error: of the checksum, or of S3 or the network
pub data Body : Type 0 where
  chunks : List Bytes → Body
  checksum_error unreadable : Body

-- the loop of `_chunks`, with what was read joined; `none` is `BodyTooLarge`
unfoldable pub read_chunks : (limit : ℕ) → Bytes → List Bytes → Option Bytes
read_chunks limit read [] = some read
read_chunks limit read (c ∷ cs) =
    let rest = read_chunks limit (read ++ c) cs in
    if ltb limit (length (read ++ c)) then none else rest

-- the kind's content check: `check_pentest_content`, `check_decision_log_content`
pub data Check : Type 0 where
  passes refused over_limit : Check

pub record Fetched : Type 0 where
  pub kind : Classified
  pub size : ℕ
  pub sha256 : Option Bytes
  pub composite_checksum : Option (List ℕ)
  pub status : Option Status
  -- the bytes that passed the content check
  pub content : Option Bytes

pub data Fetch : Type 0 where
  -- the S3 error, and what was read before it
  raised : Fetched → Fetch
  fetched : Fetched → Fetch

-- `kind_limit`
abbrev pub kind_limit : Classified → Option ℕ
kind_limit k = elim k [
  | decision_log s ↦ some (32 * 1024 * 1024)
  | decision_log_sidecar ↦ some (64 * 1024)
  | pentest_evidence ↦ some (16 * 1024 * 1024)
  | evidence_document d ↦ some (256 * 1024 * 1024)
  | unmapped why ↦ none
]

abbrev pub max_of : ℕ → ℕ → ℕ
max_of a b = if ltb a b then b else a

abbrev pub full_of : StoredChecksum → Option Bytes
full_of (full d) = some d
full_of _ = none

abbrev pub composite_of : StoredChecksum → Option (List ℕ)
composite_of (composite value) = some value
composite_of _ = none

abbrev pub size_or : ℕ → Option ℕ → ℕ
size_or listed none = listed
size_or listed (some n) = n

abbrev pub settled : Status → Fetched → Fetched
settled status f = record f { status = some status }

abbrev pub differs : Option Bytes → Bytes → Bool
differs none d = true
differs (some e) d = not (same_text d e)

abbrev pub is_problem : StoredChecksum → Bool
is_problem no_checksum = true
is_problem malformed = true
is_problem _ = false

unfoldable pub stored_checksum : (b64decode : List ℕ → Option Bytes) → Head → StoredChecksum
unfolding bad_suffix decoded
stored_checksum b64decode h = elim h.checksum_sha256 [
  | [] ↦ no_checksum
  | c ∷ s ↦
      let (digest, parts) = partition (c ∷ s) in
      if is_other_type h.checksum_type || bad_suffix h.checksum_type parts
      then malformed
      else decoded (c ∷ s) h.checksum_type (is_some parts) (b64decode digest)
]

module _ (sha256 : Bytes → Bytes) (b64decode : List ℕ → Option Bytes)
    (check : Classified → Bytes → Check) where
  -- `_hash_non_conforming`
  unfoldable pub hash_read : Fetched → Option Bytes → Fetched
  hash_read f none = f
  hash_read f (some bytes) = record f { sha256 = some (sha256 bytes) }

  unfoldable pub hash_body : Fetched → ℕ → Body → Fetch
  hash_body f limit unreadable = raised f
  hash_body f limit checksum_error = raised f
  hash_body f limit (chunks cs) = fetched (hash_read f (read_chunks limit [] cs))

  unfoldable pub hash_non_conforming : Fetched → Option ℕ → Body → Fetch
  unfolding hash_body hash_read
  hash_non_conforming f none body = fetched f
  hash_non_conforming f (some limit) body =
      if ltb limit f.size then fetched f else hash_body f limit body

  -- the last statements, by the kind
  unfoldable pub checked : Fetched → Bytes → Check → Fetched
  checked f bytes passes = record f { content = some bytes }
  checked f bytes refused = settled rejected f
  checked f bytes over_limit = settled too_large f

  unfoldable pub by_kind : Fetched → Bytes → Classified → Fetched
  unfolding checked
  by_kind f bytes (decision_log s) = checked f bytes (check (decision_log s) bytes)
  by_kind f bytes decision_log_sidecar = settled recorded f
  by_kind f bytes pentest_evidence = checked f bytes (check pentest_evidence bytes)
  by_kind f bytes (evidence_document d) = f
  by_kind f bytes (unmapped why) = f

  -- the body against the stored size and checksum
  unfoldable pub held_to : Fetched → Bytes → Fetched
  held_to f bytes =
      let digest = sha256 bytes in
      let f' = record f { sha256 = some digest } in
      if (not (is_some f.composite_checksum) && differs f.sha256 digest)
        || not (length bytes == f.size)
      then settled non_conforming f'
      else by_kind f' bytes f.kind

  unfoldable pub body_read : Fetched → Option Bytes → Fetch
  body_read f none = fetched (settled too_large f)
  body_read f (some bytes) = fetched (held_to f bytes)

  unfoldable pub read_body : Fetched → ℕ → Body → Fetch
  read_body f limit unreadable = raised f
  read_body f limit checksum_error = fetched (settled non_conforming f)
  read_body f limit (chunks cs) = body_read f (read_chunks limit [] cs)

  unfoldable pub within_limit : Fetched → ℕ → Option ℕ → Body → Fetch
  within_limit f listed none body = fetched (settled recorded f)
  within_limit f listed (some limit) body =
      if ltb limit (max_of f.size listed)
      then fetched (settled too_large f)
      else read_body f limit body

  unfoldable pub with_head : Fetched → ℕ → Body → Head → Fetch
  unfolding within_limit read_body
  with_head f listed body h =
      let c = stored_checksum b64decode h in
      let f' = record f {
        size = size_or listed h.content_length;
        sha256 = full_of c;
        composite_checksum = composite_of c;
      } in
      if is_problem c
      then hash_non_conforming (settled non_conforming f') (kind_limit f.kind) body
      else within_limit f' listed (kind_limit f.kind) body

  -- `fetch_version` of a new `Fetched`; `none` is a `HeadObject` that raises
  unfoldable pub fetch_version : Classified → (listed : ℕ) → Option Head → Body → Fetch
  unfolding with_head
  fetch_version kind listed head body =
      let f : Fetched = record {
        kind = kind;
        size = listed;
        sha256 = none;
        composite_checksum = none;
        status = none;
        content = none;
      } in
      elim head [ none ↦ raised f | some h ↦ with_head f listed body h ]
