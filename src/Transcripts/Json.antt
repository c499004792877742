-- ===== src/Transcripts/Json.antt =====
-- Decoded JSON, and what app/services/transcript_ingest.py reads of it: `_extract_text`,
-- `_extract_codex_text`, `_extract_tool_calls` and `_codex_tool_use`. A text is its code points. Of a
-- number only its text and whether it is zero is kept. `str` of a value and the JSON text of a list of
-- tool calls are arguments, as is `json.loads`.
use ai_agent_first_trust_por.Prelude.{
  Bool, true, false, not, ◌||◌, Option, none, some, List, [], ◌∷◌, ◌++◌, length, drop, take, ◌-◌,
  if◌then◌else◌,
}
use ai_agent_first_trust_por.Auth.Header.{codes, same_text}
use ai_agent_first_trust_por.DecisionLogs.Store.{Text}

mutual
  pub data Json : Type 0 where
    null : Json
    boolean : Bool → Json
    number : (is_zero : Bool) → Text → Json
    string : Text → Json
    array : Items → Json
    object : Fields → Json

  pub data Items : Type 0 where
    no_items : Items
    item : Json → Items → Items

  pub data Fields : Type 0 where
    no_fields : Fields
    field : Text → Json → Fields → Fields

-- the value of a key, if the object has it
unfoldable pub lookup : Text → Fields → Option Json
lookup k no_fields = none
lookup k (field j v fs) = let rest = lookup k fs in if same_text k j then some v else rest

abbrev pub or_json : Json → Option Json → Json
or_json default none = default
or_json default (some v) = v

-- `dict.get`
abbrev pub get : Text → Fields → Json
get k fs = or_json null (lookup k fs)

abbrev pub is_object : Json → Bool
is_object (object fs) = true
is_object _ = false

-- the fields of an object, and of another value those of an empty one
abbrev pub fields_of : Json → Fields
fields_of (object fs) = fs
fields_of _ = no_fields

abbrev is_no_items : Items → Bool
is_no_items no_items = true
is_no_items (item v vs) = false

abbrev is_no_fields : Fields → Bool
is_no_fields no_fields = true
is_no_fields (field k v fs) = false

abbrev is_empty : Text → Bool
is_empty [] = true
is_empty (c ∷ s) = false

-- the truth of a value
abbrev pub is_true : Json → Bool
is_true null = false
is_true (boolean b) = b
is_true (number is_zero s) = not is_zero
is_true (string s) = not (is_empty s)
is_true (array vs) = not (is_no_items vs)
is_true (object fs) = not (is_no_fields fs)

-- `a or b`
abbrev pub or_else : Json → Json → Json
or_else a b = if is_true a then a else b

abbrev pub is_string : Text → Json → Bool
is_string t (string s) = same_text s t
is_string t _ = false

abbrev joined_after : Text → List Text → Text
joined_after s [] = s
joined_after s (t ∷ ts) = s ++ 10 ∷ joined_after t ts

-- `"\n".join`
unfoldable pub join_lines : List Text → Text
join_lines [] = []
join_lines (s ∷ ts) = joined_after s ts

abbrev text_blocks : List Text
text_blocks = codes "input_text" ∷ codes "output_text" ∷ codes "text" ∷ []

abbrev is_one_of : List Text → Json → Bool
is_one_of [] v = false
is_one_of (t ∷ ts) v = is_string t v || is_one_of ts v

abbrev codex_text : Json → List Text → List Text
codex_text (string s) rest = s ∷ rest
codex_text _ rest = rest

codex_block : Json → List Text → List Text
codex_block (object fs) rest =
    if is_one_of text_blocks (get (codes "type") fs)
    then codex_text (get (codes "text") fs) rest
    else rest
codex_block _ rest = rest

unfoldable pub codex_blocks : Items → List Text
unfolding codex_block
codex_blocks no_items = []
codex_blocks (item v vs) = codex_block v (codex_blocks vs)

-- `_extract_codex_text`
unfoldable pub extract_codex_text : Json → Text
extract_codex_text (string s) = s
extract_codex_text (array vs) = join_lines (codex_blocks vs)
extract_codex_text _ = []

abbrev keys_of : Fields → List Text
keys_of no_fields = []
keys_of (field k v fs) = k ∷ keys_of fs

-- an object whose type is the text
abbrev pub has_type : Text → Json → Bool
has_type t (object fs) = is_string t (get (codes "type") fs)
has_type t _ = false

unfoldable pub tool_uses : Items → Items
tool_uses no_items = no_items
tool_uses (item v vs) =
    let rest = tool_uses vs in if has_type (codes "tool_use") v then item v rest else rest

-- whether a text ends with another: `str.endswith`
unfoldable pub ends_with : Text → Text → Bool
ends_with s t = same_text (drop (length s - length t) s) t

-- `CODEX_TOOL_CALL_SUFFIX`
abbrev pub call_suffix : Text
call_suffix = codes "_call"

-- what `json.loads` does: it returns a value, raises `JSONDecodeError`, or raises another error
pub data Loaded : Type 0 where
  loaded : Json → Loaded
  not_json load_error : Loaded

module _ (str_of : Json → Text) (tool_calls_json : Items → Text) (loads : Text → Loaded) where
  abbrev block_text : Option Json → Text
  block_text none = []
  block_text (some (string s)) = s
  block_text (some null) = []
  block_text (some v) = str_of v

  text_block : Json → List Text → List Text
  text_block (string s) rest = s ∷ rest
  text_block (object fs) rest =
      if is_string (codes "text") (get (codes "type") fs)
      then block_text (lookup (codes "text") fs) ∷ rest
      else rest
  text_block _ rest = rest

  unfoldable pub texts_of : Items → List Text
  unfolding text_block
  texts_of no_items = []
  texts_of (item v vs) = text_block v (texts_of vs)

  -- `_extract_text`; the blocks of an object are its keys
  unfoldable pub extract_text : Json → Text
  extract_text (string s) = s
  extract_text (array vs) = join_lines (texts_of vs)
  extract_text (object fs) = join_lines (keys_of fs)
  extract_text _ = []

  -- `_extract_tool_calls`
  unfoldable pub extract_tool_calls : Json → Option Text
  extract_tool_calls (array vs) =
      let uses = tool_uses vs in if is_no_items uses then none else some (tool_calls_json uses)
  extract_tool_calls _ = none

  -- `_decode_json_string`
  unfoldable pub decode_json_string : Json → Json
  decode_json_string (string s) = elim (loads s) [ loaded v ↦ v | _ ↦ string s ]
  decode_json_string v = v

  abbrev input_or : Fields → Option Json → Json
  input_or payload (some v) = v
  input_or payload none = get (codes "action") payload

  abbrev arguments_or : Fields → Option Json → Json
  arguments_or payload (some v) = decode_json_string v
  arguments_or payload none = input_or payload (lookup (codes "input") payload)

  -- `_codex_tool_use` of an item whose type is the text; `arguments` are decoded where they are JSON
  unfoldable pub codex_tool_use : Text → Fields → Json
  codex_tool_use kind payload = object (
      field (codes "type") (string (codes "tool_use")) (
        field (codes "id") (or_else (get (codes "call_id") payload) (get (codes "id") payload)) (
          field (codes "name")
            (or_else (get (codes "name") payload)
              (string (take (length kind - length call_suffix) kind)))
            (field (codes "input") (arguments_or payload (lookup (codes "arguments") payload))
              no_fields))))
