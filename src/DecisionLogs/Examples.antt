-- ===== src/DecisionLogs/Examples.antt =====
-- A session that is created, extended, refused and baselined, and two imports that share the budget:
-- the results on app/services/evidence_import_decision_logs.py at concrete inputs.
use ai_agent_first_trust_por.Prelude.{
  ℕ, ◌<◌, ◌≤◌, false, none, some, List, [], ◌∷◌, ◌≡◌, refl, arith, length, take,
}
use ai_agent_first_trust_por.DecisionLogs.Entries.{
  Entry, compare_with_stored, entries_digest, bytes_of,
}
use ai_agent_first_trust_por.DecisionLogs.Compared.{
  first_difference, agreed, compare_with_stored-eq,
}
use ai_agent_first_trust_por.DecisionLogs.Store.{Parsed, Stored, Upload, member}
use ai_agent_first_trust_por.DecisionLogs.Writes.{Codec}
use ai_agent_first_trust_por.DecisionLogs.Import.{import, import_for, import_new}
use ai_agent_first_trust_por.DecisionLogs.AppendOnly.{Extends, import-appends}
use ai_agent_first_trust_por.DecisionLogs.Current.{IsSound, import-IsSound}
use ai_agent_first_trust_por.DecisionLogs.Accepted.{Holds, import-stores}
use ai_agent_first_trust_por.DecisionLogs.Again.{import-again}
use ai_agent_first_trust_por.DecisionLogs.DryRun.{dry, wet, import-dry}
use ai_agent_first_trust_por.DecisionLogs.Budget.{
  Ticket, taken, World, Step, takes, here, then_step, enters, recheck, acquire, remove, slot_charge,
  import_charge,
}
use ai_agent_first_trust_por.DecisionLogs.Turns.{
  IsWithin, ahead, charges, Trace-IsWithin, first-gets_in, Step-turns,
}

abbrev ask : Entry
ask = record {
  role = some "user";
  content_text = some "deploy it";
  tool_calls = none;
  timestamp = some 10;
  message_id = none;
  is_verification = false;
}

abbrev answer : Entry
answer = record ask { role = some "assistant"; content_text = some "deployed"; timestamp = some 20 }

abbrev parsed_of : List Entry → Parsed
parsed_of es = record {
  entries = es;
  model = none;
  cwd = none;
  git_branch = none;
  started_at = none;
  ended_at = none;
  agent_type = "claude_code";
}

abbrev toy : Codec
toy = record {
  sha256_hex = λ bytes. elim bytes [ [] ↦ "zero" | _ ∷ _ ↦ "more" ];
  canonical = λ e. 1 ∷ [];
  reencode = λ s. none;
  reconstruct = λ s es n. [];
  gzip = λ bytes. bytes;
  parse_transcript = λ bytes. none;
}

abbrev export : List Entry → Upload
export es = record {
  content = 1 ∷ [];
  source_path = none;
  exit_reason = none;
  submitted_by = some "ann";
  authority = member;
  named_agent = none;
  preparsed = some (parsed_of es);
  source_commit = none;
  store_object_id = none;
  dry_run = false;
  now = 30;
}

abbrev nothing : Stored
nothing = record { session = none; entries = []; versions = [] }

-- the state after the first export
abbrev first : Upload
first = export (ask ∷ [])

nothing-IsSound : IsSound toy nothing
nothing-IsSound = record {
  one = omega arith;
  described = tt;
  no_entries = λ h. refl;
  no_versions = λ h. refl;
}

import-appends_example : Extends nothing.entries (import toy first none nothing).1.entries
import-appends_example = import-appends toy first nothing refl

import-IsSound_example : IsSound toy (import toy first none nothing).1
import-IsSound_example = import-IsSound toy first nothing nothing-IsSound

import-stores_example : Holds toy (parsed_of (ask ∷ [])) (import toy first none nothing).1.entries
unfolding import import_for import_new
import-stores_example =
    import-stores toy first nothing (parsed_of (ask ∷ [])) (λ h. refl) refl refl refl

import-again_example :
    (import toy first none (import toy first none nothing).1).1 ≡ (import toy first none nothing).1
import-again_example = import-again toy first nothing

import-dry_example :
    import toy (dry first) none nothing ≡ ((import toy (wet first) none nothing).0, nothing)
import-dry_example = import-dry toy first nothing

compare_with_stored-eq_example :
    compare_with_stored toy.sha256_hex toy.canonical toy.reencode (ask ∷ answer ∷ []) (ask ∷ [])
    ≡ record {
      stored = 2;
      difference = first_difference toy.reencode (ask ∷ answer ∷ []) (ask ∷ []);
      prefix =
          bytes_of toy.canonical
            (take (agreed toy.reencode (ask ∷ answer ∷ []) (ask ∷ [])) (ask ∷ answer ∷ []));
      stored_sha256 = entries_digest toy.sha256_hex toy.canonical (ask ∷ answer ∷ []);
    }
compare_with_stored-eq_example =
    compare_with_stored-eq toy.sha256_hex toy.canonical toy.reencode (ask ∷ answer ∷ []) (ask ∷ [])

abbrev ticket : ℕ → Ticket
ticket i = record { id = i; charge = 40 }

abbrev idle : World
idle = record { budget = record { capacity = 40; used = 0; waiting = [] }; holders = [] }

abbrev running : World
running = record {
  budget = record { capacity = 40; used = 40; waiting = [] };
  holders = ticket 1 ∷ [];
}

one_enters : Step idle running
unfolding acquire slot_charge import_charge
one_enters = enters (ticket 1) none running.budget refl refl

Trace-IsWithin_example : IsWithin running
unfolding charges
Trace-IsWithin_example =
    Trace-IsWithin idle running (then_step here one_enters)
      (record { exact = refl; within = omega arith; fitting = tt })

abbrev queue : World
queue = record idle {
  budget = record { capacity = 40; used = 0; waiting = ticket 1 ∷ ticket 2 ∷ [] };
}

first-gets_in_example :
    recheck queue.budget (ticket 1) false
    ≡ (taken, record queue.budget { used = 40; waiting = ticket 2 ∷ [] })
unfolding charges
first-gets_in_example =
    first-gets_in queue (ticket 1) (ticket 2 ∷ []) false
      (record { exact = refl; within = omega arith; fitting = (omega arith, (omega arith, tt)) })
      refl refl

abbrev served : World
served = record {
  budget = record { capacity = 40; used = 40; waiting = ticket 2 ∷ [] };
  holders = ticket 1 ∷ [];
}

one_takes : Step queue served
unfolding recheck remove
one_takes = takes (ticket 1) false served.budget [] (ticket 2 ∷ []) refl refl

Step-turns_example :
    (ahead 2 served.budget.waiting ≤ ahead 2 queue.budget.waiting)
    × (length queue.holders < length served.holders
        → ahead 2 served.budget.waiting < ahead 2 queue.budget.waiting)
Step-turns_example = Step-turns queue served 2 one_takes (omega arith) refl refl
