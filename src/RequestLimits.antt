-- ===== src/RequestLimits.antt =====
-- The limits on request bodies of app/request_limits.py.
use ai_agent_first_trust_por.Prelude.{
  ℕ, suc, ◌+◌, ◌*◌, String, Bool, true, false, not, ◌&&◌, ◌||◌, Option, none, some, List, [], ◌∷◌,
  ltb, leb, ◌==◌, str_eq, if◌then◌else◌,
}
use Prim.Native.Nat.{min}
pub mod Json
pub mod Body
mod Examples

-- what a character of a JSON text is, outside strings
pub data Token : Type 0 where
  quote opener comma closer other : Token

abbrev pub token_of : ℕ → Token
token_of c =
    if c == 34
    then quote
    else if c == 91 || c == 123
    then opener
    else if c == 44
    then comma
    else if c == 93 || c == 125
    then closer
    else other

-- `values`, `closers`, and how many arrays and objects were opened: `depth` is `opened` less `closers`
pub record Counts : Type 0 where
  pub values : ℕ
  pub opened : ℕ
  pub closers : ℕ

abbrev pub count : Token → Counts → Counts
count quote k = k
count opener k = record k { values = suc k.values; opened = suc k.opened }
count comma k = record k { values = suc k.values }
count closer k = record k { closers = suc k.closers }
count other k = k

pub data Verdict : Type 0 where
  passes bad_request entity_too_large : Verdict

abbrev pub over : ℕ → Option ℕ → Bool
over n none = false
over n (some limit) = ltb limit n

-- the checks after a character is counted
unfoldable pub judge : (max_depth : ℕ) (max_values : Option ℕ) → Token → Counts → Verdict
judge max_depth max_values opener k =
    if ltb (max_depth + k.closers) k.opened
    then bad_request
    else if over k.values max_values
    then entity_too_large
    else passes
judge max_depth max_values comma k = if over k.values max_values then entity_too_large else passes
judge max_depth max_values closer k = if over k.closers max_values then entity_too_large else passes
judge max_depth max_values quote k = passes
judge max_depth max_values other k = passes

abbrev pub unless_refused : Verdict → Verdict → Verdict
unless_refused passes rest = rest
unless_refused bad_request rest = bad_request
unless_refused entity_too_large rest = entity_too_large

-- outside strings, inside one, and after a backslash in one (`_JSON_STRING_REST`)
pub data Mode : Type 0 where
  outside inside escaped : Mode

abbrev pub next_mode : Mode → ℕ → Mode
next_mode outside c = if c == 34 then inside else outside
next_mode inside c = if c == 34 then outside else if c == 92 then escaped else inside
next_mode escaped c = inside

-- the scan from one place in the text on; an unterminated string ends it
unfoldable pub scan_json :
    (max_depth : ℕ) (max_values : Option ℕ) → Mode → Counts → List ℕ → Verdict
scan_json max_depth max_values mode k [] = passes
scan_json max_depth max_values outside k (c ∷ s) =
    let k' = count (token_of c) k in
    unless_refused (judge max_depth max_values (token_of c) k')
      (scan_json max_depth max_values (next_mode outside c) k' s)
scan_json max_depth max_values inside k (c ∷ s) =
    scan_json max_depth max_values (next_mode inside c) k s
scan_json max_depth max_values escaped k (c ∷ s) =
    scan_json max_depth max_values (next_mode escaped c) k s

abbrev pub no_counts : Counts
no_counts = record { values = 0; opened = 0; closers = 0 }

-- `check_json_limits`
unfoldable pub check_json_limits : List ℕ → (max_depth : ℕ) (max_values : Option ℕ) → Verdict
unfolding scan_json judge
check_json_limits text max_depth max_values = scan_json max_depth max_values outside no_counts text

-- `MAX_JSON_DEPTH` and `MAX_JSON_VALUES`
abbrev pub max_json_depth : ℕ
max_json_depth = 32

abbrev pub max_json_values : ℕ
max_json_values = 200000

-- `default_body_limit` in an application: the least of the limits that are set
abbrev pub least : Option ℕ → Option ℕ → Option ℕ
least none b = b
least (some a) none = some a
least (some a) (some b) = some (min a b)

unfoldable pub default_body_limit : (request_body_limit max_content_length : Option ℕ) → Option ℕ
default_body_limit request_body_limit max_content_length =
    least request_body_limit max_content_length

-- `ROUTE_BODY_LIMITS`
abbrev pub mib : ℕ
mib = 1048576

unfoldable pub route_body_limit : String → Option ℕ
route_body_limit endpoint =
    if str_eq endpoint "api.upload_decision_log"
      || str_eq endpoint "admin.evidence_upload"
      || str_eq endpoint "api.record_execution"
      || str_eq endpoint "api.batch_record_execution"
      || str_eq endpoint "api.batch_submit_evidence"
      || str_eq endpoint "crud.create_evidence"
      || str_eq endpoint "crud.update_evidence"
    then some (32 * mib)
    else if str_eq endpoint "api.verify_audit_log"
    then some (8 * mib)
    else none

abbrev pub without_body : String → Bool
without_body method = str_eq method "GET" || str_eq method "HEAD" || str_eq method "OPTIONS"

exceeds : ℕ → Option ℕ → Bool
exceeds limit none = false
exceeds limit (some d) = ltb d limit

capped : ℕ → Option ℕ → ℕ
capped raised none = raised
capped raised (some ceiling) = min raised ceiling

raise_limit : (authenticated : Bool) → Option ℕ → ℕ → Option ℕ → Option ℕ
raise_limit authenticated default limit current =
    if exceeds limit default && not authenticated then current else some limit

unfoldable pub apply_raised :
    Option ℕ
    → (request_body_limit max_content_length : Option ℕ) (authenticated : Bool) (method : String)
    → Option ℕ
    → Option ℕ
unfolding raise_limit exceeds capped default_body_limit
apply_raised none request_body_limit max_content_length authenticated method current = current
apply_raised (some raised) request_body_limit max_content_length authenticated method current =
    if without_body method
    then current
    else raise_limit authenticated (default_body_limit request_body_limit max_content_length)
        (capped raised max_content_length) current

-- `apply_route_body_limit`: the request's own limit afterwards, from the one before
unfoldable pub apply_route_body_limit :
    (request_body_limit max_content_length : Option ℕ) (authenticated : Bool)
    (endpoint method : String)
    → Option ℕ
    → Option ℕ
apply_route_body_limit request_body_limit max_content_length authenticated endpoint method current =
    apply_raised (route_body_limit endpoint) request_body_limit max_content_length authenticated
      method current

-- `max_content_length` of the request
unfoldable pub effective_limit :
    (request_body_limit max_content_length : Option ℕ) → Option ℕ → Option ℕ
effective_limit request_body_limit max_content_length (some own) = some own
effective_limit request_body_limit max_content_length none =
    default_body_limit request_body_limit max_content_length
