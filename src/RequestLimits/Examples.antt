-- ===== src/RequestLimits/Examples.antt =====
-- A JSON text, to which the result on app/request_limits.py is applied.
use ai_agent_first_trust_por.Prelude.{ℕ, Bool, false, Option, some, List}
use ai_agent_first_trust_por.Auth.Header.{codes}

abbrev document : List ℕ
document = codes "{\"a[\": [1, 2]}"

abbrev anonymous : Bool
anonymous = false

abbrev default : Option ℕ
default = some 1048576
