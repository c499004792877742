-- ===== src/AuditChain/Links.antt =====
-- Forks and breaks: `_chain_roots` and `classify_links` of app/services/audit_chain.py.
use ai_agent_first_trust_por.Prelude.{
  ℕ, String, Bool, false, not, ◌&&◌, ◌||◌, Option, none, some, List, [], ◌∷◌, ltb, str_eq, any,
  if◌then◌else◌,
}
use ai_agent_first_trust_por.AuditLog.{Row, first_row, is_truthy, earliest_id}

-- `GENESIS_HASH`
abbrev pub genesis_hash : String
genesis_hash = "0000000000000000000000000000000000000000000000000000000000000000"

anchored_root : Option Row → List String
anchored_root none = []
anchored_root (some r) =
    if str_eq r.action "ANCHOR" && is_truthy r.previous_hash
    then elim r.previous_hash [ none ↦ [] | some h ↦ h ∷ [] ]
    else []

unfoldable pub chain_roots : List Row → List String
unfolding anchored_root
chain_roots rows = genesis_hash ∷ anchored_root (first_row rows)

is_serialized : Option ℕ → ℕ → Bool
is_serialized none i = false
is_serialized (some from) i = ltb from i

is_earlier : ℕ → Option ℕ → Bool
is_earlier i none = false
is_earlier i (some j) = ltb j i

points_back : List Row → List String → ℕ → Option String → Bool
points_back rows roots i none = false
points_back rows roots i (some h) =
    not (str_eq h "") && (any (str_eq h) roots || is_earlier i (earliest_id h rows))

-- whether a mislinked row is a fork
unfoldable pub is_fork : List Row → List String → Option ℕ → ℕ × Option String → Bool
unfolding is_serialized is_earlier points_back
is_fork rows roots serialized_from (i, previous) =
    not (is_serialized serialized_from i) && points_back rows roots i previous

-- the ids of the forks and of the true breaks
unfoldable pub classify_links :
    List Row → List (ℕ × Option String) → List String → Option ℕ → List ℕ × List ℕ
classify_links rows [] roots serialized_from = ([], [])
classify_links rows (c ∷ cs) roots serialized_from =
    let (forks, breaks) = classify_links rows cs roots serialized_from in
    if is_fork rows roots serialized_from c then (c.0 ∷ forks, breaks) else (forks, c.0 ∷ breaks)
