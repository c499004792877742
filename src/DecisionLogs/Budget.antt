-- ===== src/DecisionLogs/Budget.antt =====
-- `ImportBudget` of app/services/evidence_import_decision_logs.py: the bytes that the imports of one
-- process share. The methods run under the condition's lock, so each stretch between two waits is one
-- step; a thread is its ticket.
use ai_agent_first_trust_por.Prelude.{
  ℕ, ◌+◌, ◌-◌, ◌*◌, ◌/◌, Bool, true, false, ◌&&◌, Option, none, some, List, [], ◌∷◌, ◌++◌, ◌≡◌, leb,
  ltb, ◌==◌, any, if◌then◌else◌,
}

pub record Ticket : Type 0 where
  pub id : ℕ
  pub charge : ℕ

pub record ImportBudget : Type 0 where
  pub capacity : ℕ
  pub used : ℕ
  pub waiting : List Ticket

-- `acquire` returned True, returned False, or waits
pub data Answer : Type 0 where
  taken refused waits : Answer

abbrev pub is_ticket : ℕ → Ticket → Bool
is_ticket i t = t.id == i

abbrev pub fits : ImportBudget → ℕ → Bool
fits b charge = leb (b.used + charge) b.capacity

-- `self._waiting.remove(ticket)`
unfoldable pub remove : ℕ → List Ticket → List Ticket
remove i [] = []
remove i (t ∷ ts) = if is_ticket i t then ts else t ∷ remove i ts

abbrev pub is_nil : List Ticket → Bool
is_nil [] = true
is_nil (t ∷ ts) = false

-- `acquire` up to its first wait; a timeout of 0 does not wait
unfoldable pub acquire : ImportBudget → Ticket → Bool → Answer × ImportBudget
acquire b t may_wait =
    if is_nil b.waiting && fits b t.charge
    then (taken, record b { used = b.used + t.charge })
    else if may_wait
    then (waits, record b { waiting = b.waiting ++ t ∷ [] })
    else (refused, b)

-- `self._waiting[0] is ticket`
abbrev pub is_first : ℕ → List Ticket → Bool
is_first i [] = false
is_first i (t ∷ ts) = is_ticket i t

-- a round of the loop of `acquire`, whose deadline has passed or not
unfoldable pub recheck : ImportBudget → Ticket → Bool → Answer × ImportBudget
recheck b t expired =
    if is_first t.id b.waiting && fits b t.charge
    then (taken, record b { used = b.used + t.charge; waiting = remove t.id b.waiting })
    else if expired
    then (refused, record b { waiting = remove t.id b.waiting })
    else (waits, b)

unfoldable pub release : ImportBudget → ℕ → ImportBudget
release b charge = record b { used = b.used - charge }

-- `MAX_TRANSCRIPT_BYTES`, `IMPORT_BYTE_BUDGET`, `MIN_IMPORT_CHARGE`
abbrev pub max_transcript_bytes : ℕ
max_transcript_bytes = 32 * 1024 * 1024

abbrev pub import_byte_budget : ℕ
import_byte_budget = max_transcript_bytes * 3 / 2

abbrev pub min_import_charge : ℕ
min_import_charge = 1024 * 1024

abbrev min_of : ℕ → ℕ → ℕ
min_of a b = if ltb b a then b else a

abbrev max_of : ℕ → ℕ → ℕ
max_of a b = if ltb a b then b else a

unfoldable pub import_charge : Option ℕ → ℕ
import_charge none = max_transcript_bytes
import_charge (some size) = min_of (max_of size min_import_charge) max_transcript_bytes

-- the charge that `import_slot` takes
unfoldable pub slot_charge : ImportBudget → Option ℕ → ℕ
unfolding import_charge
slot_charge b size = min_of (import_charge size) b.capacity

-- the budget, and the imports that hold a part of it
pub record World : Type 0 where
  pub budget : ImportBudget
  pub holders : List Ticket

-- What threads do: each takes a charge of `import_slot` and returns what it took.
pub data Step (w : World) : World → Type 0 where
  enters :
      (t : Ticket) (size : Option ℕ) (b : ImportBudget)
      → t.charge ≡ slot_charge w.budget size
      → acquire w.budget t true ≡ (taken, b)
      → Step w (record { budget = b; holders = t ∷ w.holders })
  enters_at_once :
      (t : Ticket) (size : Option ℕ) (b : ImportBudget)
      → t.charge ≡ slot_charge w.budget size
      → acquire w.budget t false ≡ (taken, b)
      → Step w (record { budget = b; holders = t ∷ w.holders })
  queues :
      (t : Ticket) (size : Option ℕ) (b : ImportBudget)
      → t.charge ≡ slot_charge w.budget size
      → any (is_ticket t.id) w.budget.waiting ≡ false
      → acquire w.budget t true ≡ (waits, b)
      → Step w (record { budget = b; holders = w.holders })
  takes :
      (t : Ticket) (expired : Bool) (b : ImportBudget) (before after : List Ticket)
      → w.budget.waiting ≡ before ++ t ∷ after
      → recheck w.budget t expired ≡ (taken, b)
      → Step w (record { budget = b; holders = t ∷ w.holders })
  gives_up :
      (t : Ticket) (b : ImportBudget) (before after : List Ticket)
      → w.budget.waiting ≡ before ++ t ∷ after
      → recheck w.budget t true ≡ (refused, b)
      → Step w (record { budget = b; holders = w.holders })
  releases :
      (t : Ticket) (before after : List Ticket)
      → w.holders ≡ before ++ t ∷ after
      → Step w (record { budget = release w.budget t.charge; holders = before ++ after })

pub data Trace (w : World) : World → Type 0 where
  here : Trace w w
  then_step : {v u : World} → Trace w v → Step v u → Trace w u
