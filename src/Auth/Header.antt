-- ===== src/Auth/Header.antt =====
-- The API key that a request's headers carry: `api_key_header` of app/auth.py, over Latin-1 code
-- points, as WSGI servers decode headers.
use mathlib.Core.List.{reverse}
use Prim.Native.Char.{code}
use ai_agent_first_trust_por.Prelude.{
  ℕ, ◌+◌, String, Bool, true, false, ◌&&◌, ◌||◌, Option, none, some, List, [], ◌∷◌, map, leb, ◌==◌,
  if◌then◌else◌,
}
use ai_agent_first_trust_por.Team.{ApiKey}

pub record Request : Type 0 where
  pub method : String
  pub endpoint : String
  pub path : List ℕ
  pub accept : List ℕ
  pub x_api_key : Option (List ℕ)
  pub authorization : Option (List ℕ)

abbrev pub codes : String → List ℕ
codes String.[] = []
codes (String.◌∷◌ c s) = code c ∷ codes s

-- `str.isspace` on Latin-1
abbrev pub is_space : ℕ → Bool
is_space c = (leb 9 c && leb c 13) || ((leb 28 c && leb c 32) || (c == 133 || c == 160))

-- `str.lstrip`
unfoldable pub lstrip : List ℕ → List ℕ
lstrip [] = []
lstrip (c ∷ s) = let rest = lstrip s in if is_space c then rest else c ∷ s

-- `str.strip`
unfoldable pub strip : List ℕ → List ℕ
unfolding lstrip
strip s = reverse (lstrip (reverse (lstrip s)))

-- `str.split(None, 1)` of a text without leading spaces: its first word and what follows
first_word : List ℕ → List ℕ
first_word [] = []
first_word (c ∷ s) = let rest = first_word s in if is_space c then [] else c ∷ rest

after_word : List ℕ → List ℕ
after_word [] = []
after_word (c ∷ s) = let rest = after_word s in if is_space c then c ∷ s else rest

-- `str.lower` on ASCII letters; no other Latin-1 letter has an ASCII lower case
unfoldable pub lower : ℕ → ℕ
lower c = if leb b'A' c && leb c b'Z' then c + 32 else c

unfoldable pub same_text : List ℕ → List ℕ → Bool
same_text [] [] = true
same_text (c ∷ s) (d ∷ t) = c == d && same_text s t
same_text _ _ = false

bearer_key : List ℕ → Option ApiKey
bearer_key [] = none
bearer_key (c ∷ s) =
    if same_text (map lower (first_word (c ∷ s))) (codes "bearer")
    then some (strip (lstrip (after_word (c ∷ s))))
    else none

text_or_empty : Option (List ℕ) → List ℕ
text_or_empty none = []
text_or_empty (some s) = s

header_key : Option (List ℕ) → Option (List ℕ) → Option ApiKey
header_key (some key) auth = some (strip key)
header_key none auth = bearer_key (strip (text_or_empty auth))

unfoldable pub api_key_header : Request → Option ApiKey
unfolding header_key bearer_key text_or_empty first_word after_word lower same_text strip
api_key_header r = header_key r.x_api_key r.authorization

unfoldable pub starts_with : List ℕ → List ℕ → Bool
starts_with s [] = true
starts_with [] (c ∷ p) = false
starts_with (d ∷ s) (c ∷ p) = d == c && starts_with s p

-- `p in s`
unfoldable pub occurs : List ℕ → List ℕ → Bool
unfolding starts_with
occurs p [] = starts_with [] p
occurs p (c ∷ s) = starts_with (c ∷ s) p || occurs p s

-- `_is_browser_request`
unfoldable pub is_browser_request : Request → Bool
unfolding occurs
is_browser_request r = occurs (codes "text/html") r.accept
