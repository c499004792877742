-- ===== src/AuditChain/Issues.antt =====
-- The findings of `verify_chain` in app/services/audit_chain.py, the first break that it shows and
-- the status that it concludes.
use ai_agent_first_trust_por.Prelude.{
  ℕ, String, Bool, true, false, not, ◌&&◌, ◌||◌, Option, none, some, List, [], ◌∷◌, ◌++◌, ltb, ◌==◌,
  is_some, str_eq, find, if◌then◌else◌,
}
use ai_agent_first_trust_por.AuditWitness.Heads.{
  Anchor, AnchorVerification, WitnessReport, Mismatch, MismatchIssue, Invalid, status_is,
}
use ai_agent_first_trust_por.AuditChain.Scan.{Detail}

-- What is wrong at a row. The constructors stand in the order of the messages' texts, by which
-- `min` decides between two issues of one row.
pub data Issue : Type 0 where
  anchor_not_verified : Option String → Issue
  content_altered fork true_break witness_mismatch : Issue

rank : Issue → ℕ
rank (anchor_not_verified _) = 0
rank content_altered = 1
rank fork = 2
rank true_break = 3
rank witness_mismatch = 4

before : ℕ × Issue → ℕ × Issue → Bool
before (i, a) (j, b) = ltb i j || (i == j && ltb (rank a) (rank b))

unfoldable pub min_issue : ℕ × Issue → List (ℕ × Issue) → ℕ × Issue
unfolding before rank
min_issue best [] = best
min_issue best (x ∷ xs) = min_issue (if before x best then x else best) xs

pub data FirstBreak : Type 0 where
  at_row : (id : ℕ) (known : Option Detail) → Issue → FirstBreak
  at_witness : MismatchIssue → FirstBreak
  at_invalid : (count : ℕ) → Invalid → FirstBreak

first_issue : Issue → List ℕ → List (ℕ × Issue)
first_issue issue [] = []
first_issue issue (i ∷ is) = (i, issue) ∷ []

head_text : List String → Option String
head_text [] = none
head_text (s ∷ ss) = some s

anchor_issue : Option Anchor → Option AnchorVerification → List (ℕ × Issue)
anchor_issue none v = []
anchor_issue (some a) none = []
anchor_issue (some a) (some v) =
    if str_eq v.status "failed" then (a.id, anchor_not_verified (head_text v.issues)) ∷ [] else []

-- the ids of the reported mismatches that name a row, as issues
mismatch_issues : List Mismatch → List (ℕ × Issue)
mismatch_issues [] = []
mismatch_issues (m ∷ ms) =
    let rest = mismatch_issues ms in
    elim m.id [ none ↦ rest | some i ↦ (i, witness_mismatch) ∷ rest ]

least_id : List (ℕ × Issue) → List (ℕ × Issue)
least_id [] = []
least_id (x ∷ xs) = min_issue x xs ∷ []

-- the findings of a pass over the rows
pub record Findings : Type 0 where
  pub content_mismatches : List ℕ
  pub forks : List ℕ
  pub true_breaks : List ℕ

unfoldable pub issues_of :
    Findings → Option Anchor → Option AnchorVerification → List Mismatch → List (ℕ × Issue)
unfolding first_issue anchor_issue mismatch_issues least_id head_text
issues_of f a v ms =
    first_issue content_altered f.content_mismatches
    ++ first_issue true_break f.true_breaks
    ++ first_issue fork f.forks
    ++ anchor_issue a v
    ++ least_id (mismatch_issues ms)

unfoldable pub unplaced : List Mismatch → List Invalid → ℕ → Option FirstBreak
unplaced (m ∷ ms) is n = some (at_witness m.issue)
unplaced [] (i ∷ is) n = some (at_invalid n i)
unplaced [] [] n = none

unfoldable pub placed : List Detail → List (ℕ × Issue) → Option FirstBreak → Option FirstBreak
placed ds [] otherwise = otherwise
placed ds (x ∷ xs) otherwise =
    let (i, issue) = min_issue x xs in some (at_row i (find (λ d. d.id == i) ds) issue)

pub data Status : Type 0 where
  valid intact_with_forks unverified broken : Status

is_nonempty {ℓ} : {A : Type ℓ} → List A → Bool
is_nonempty [] = false
is_nonempty (_ ∷ _) = true

-- what the witness adds to the verdict, 0 and nothing without one
pub record WitnessPart : Type 0 where
  pub mismatches : List Mismatch
  pub mismatches_count : ℕ
  pub invalid : List Invalid
  pub invalid_count : ℕ
  pub unverified_continuations_count : ℕ

unfoldable pub witness_part : Option WitnessReport → WitnessPart
witness_part none = record {
  mismatches = [];
  mismatches_count = 0;
  invalid = [];
  invalid_count = 0;
  unverified_continuations_count = 0;
}
witness_part (some w) = record {
  mismatches = w.witness.mismatches;
  mismatches_count = w.mismatches_count;
  invalid = w.witness.invalid_heads;
  invalid_count = w.invalid_heads_count;
  unverified_continuations_count = w.unverified_continuations_count;
}

unfoldable pub status_of : Findings → Option AnchorVerification → WitnessPart → Status
unfolding is_nonempty
status_of f v w =
    if is_nonempty f.content_mismatches
      || (is_nonempty f.true_breaks
          || (ltb 0 w.mismatches_count || (ltb 0 w.invalid_count || status_is "failed" v)))
    then broken
    else if (is_some v && not (status_is "verified" v)) || ltb 0 w.unverified_continuations_count
    then unverified
    else if is_nonempty f.forks
    then intact_with_forks
    else valid
