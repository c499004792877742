-- ===== src/DecisionLogs/Turns.antt =====
-- The import budget of app/services/evidence_import_decision_logs.py is never exceeded, goes by turns,
-- and lets the first import in once the others have returned what they took.
use ai_agent_first_trust_por.Prelude.{
  ℕ, suc, ◌+◌, ◌≤◌, ◌<◌, Bool, true, false, Option, List, [], ◌∷◌, ◌++◌, ◌≡◌, ◌≢◌, refl, ap, ◌∙◌,
  arith, any, count_by, length, length-append, Bool-cases, inl, inr, if◌then◌else◌,
}
use ai_agent_first_trust_por.DecisionLogs.Budget.{
  Ticket, ImportBudget, taken, refused, waits, is_ticket, remove, acquire, is_first, recheck,
  release, slot_charge, World, Step, enters, enters_at_once, queues, takes, gives_up, releases,
  Trace, here, then_step, is_nil,
}

unfoldable pub charges : List Ticket → ℕ
charges [] = 0
charges (t ∷ ts) = t.charge + charges ts

abbrev pub AllFit : ℕ → List Ticket → Type 0
AllFit c [] = Unit {0}
AllFit c (t ∷ ts) = (t.charge ≤ c) × AllFit c ts

-- What is used is what the holders took, it is within the capacity, and every waiting import fits
-- into an empty budget.
pub record IsWithin (w : World) : Type 0 where
  pub exact : w.budget.used ≡ charges w.holders
  pub within : w.budget.used ≤ w.budget.capacity
  pub fitting : AllFit w.budget.capacity w.budget.waiting

charges-append : (xs ys : List Ticket) → charges (xs ++ ys) ≡ charges xs + charges ys
unfolding charges
charges-append [] ys = omega arith
charges-append (x ∷ xs) ys = omega (arith, charges-append xs ys)

AllFit-append :
    (c : ℕ) (ts : List Ticket) (t : Ticket) → AllFit c ts → t.charge ≤ c → AllFit c (ts ++ t ∷ [])
AllFit-append c [] t _ h = (h, tt)
AllFit-append c (s ∷ ts) t (g, a) h = (g, AllFit-append c ts t a h)

AllFit-remove : (c i : ℕ) (ts : List Ticket) → AllFit c ts → AllFit c (remove i ts)
unfolding remove
AllFit-remove c i [] _ = tt
AllFit-remove c i (t ∷ ts) (g, a) = elim (Bool-cases (is_ticket i t)) [
  | inl h ↦ rw h a
  | inr h ↦ rw h (g, AllFit-remove c i ts a)
]

slot_charge-le : (b : ImportBudget) (size : Option ℕ) → slot_charge b size ≤ b.capacity
unfolding slot_charge
slot_charge-le b size = ground arith

is_nil-eq : (ts : List Ticket) → is_nil ts ≡ true → ts ≡ []
is_nil-eq [] h = refl
is_nil-eq (t ∷ ts) h = cc

acquire-taken :
    (b b' : ImportBudget) (t : Ticket) (m : Bool)
    → acquire b t m ≡ (taken, b')
    → (b.waiting ≡ [])
      × (b.used + t.charge ≤ b.capacity)
      × (b' ≡ record b { used = b.used + t.charge })
unfolding acquire
acquire-taken b b' t m h = (ground (arith, is_nil-eq b.waiting), ground arith, ground arith)

acquire-waits :
    (b b' : ImportBudget) (t : Ticket)
    → acquire b t true ≡ (waits, b')
    → b' ≡ record b { waiting = b.waiting ++ t ∷ [] }
unfolding acquire
acquire-waits b b' t h = ground arith

recheck-taken :
    (b b' : ImportBudget) (t : Ticket) (expired : Bool)
    → recheck b t expired ≡ (taken, b')
    → (is_first t.id b.waiting ≡ true)
      × (b.used + t.charge ≤ b.capacity)
      × (b' ≡ record b { used = b.used + t.charge; waiting = remove t.id b.waiting })
unfolding recheck
recheck-taken b b' t expired h = (ground arith, ground arith, ground arith)

recheck-refused :
    (b b' : ImportBudget) (t : Ticket)
    → recheck b t true ≡ (refused, b')
    → b' ≡ record b { waiting = remove t.id b.waiting }
unfolding recheck
recheck-refused b b' t h = ground arith

entered-IsWithin :
    (w : World) (t : Ticket) (b : ImportBudget) (m : Bool)
    → acquire w.budget t m ≡ (taken, b)
    → IsWithin w
    → IsWithin (record { budget = b; holders = t ∷ w.holders })
unfolding charges
entered-IsWithin w t b m h s =
    let (alone, room, e) = acquire-taken w.budget b t m h in
    rw e (record { exact = omega arith; within = room; fitting = s.fitting })

Step-IsWithin : (w v : World) → Step w v → IsWithin w → IsWithin v
unfolding release charges
Step-IsWithin w _ (enters t size b c h) s = entered-IsWithin w t b true h s
Step-IsWithin w _ (enters_at_once t size b c h) s = entered-IsWithin w t b false h s
Step-IsWithin w _ (queues t size b c new h) s = rw (acquire-waits w.budget b t h) (record {
  exact = s.exact;
  within = s.within;
  fitting =
      AllFit-append w.budget.capacity w.budget.waiting t s.fitting
        (rw c (slot_charge-le w.budget size));
})
Step-IsWithin w _ (takes t expired b before after m h) s =
    let (first, room, e) = recheck-taken w.budget b t expired h in
    rw e (record {
      exact = omega arith;
      within = room;
      fitting = AllFit-remove w.budget.capacity t.id w.budget.waiting s.fitting;
    })
Step-IsWithin w _ (gives_up t b before after m h) s = rw (recheck-refused w.budget b t h) (record {
  exact = s.exact;
  within = s.within;
  fitting = AllFit-remove w.budget.capacity t.id w.budget.waiting s.fitting;
})
Step-IsWithin w _ (releases t before after e) s =
    let total : charges w.holders ≡ charges before + (t.charge + charges after) =
      rw e (charges-append before (t ∷ after)) in
    record {
      exact = omega (arith, s.exact, charges-append before after);
      within = omega (arith, s.within);
      fitting = s.fitting;
    }

-- However the imports of a process enter, wait, give up and return what they took, the bytes in use
-- are the sum of what the running imports took, they stay within the capacity, and every waiting
-- import fits into an empty budget.
pub Trace-IsWithin : (w v : World) → Trace w v → IsWithin w → IsWithin v
Trace-IsWithin w _ here s = s
Trace-IsWithin w v (then_step {v = m} before step) s =
    Step-IsWithin m v step (Trace-IsWithin w m before s)

-- Once every running import has returned what it took, the first of the waiting imports gets in at
-- its next look at the budget, whether its deadline has passed or not, and leaves the queue.
pub first-gets_in :
    (w : World) (t : Ticket) (ts : List Ticket) (expired : Bool)
    → IsWithin w
    → w.holders ≡ []
    → w.budget.waiting ≡ t ∷ ts
    → recheck w.budget t expired ≡ (taken, record w.budget { used = t.charge; waiting = ts })
unfolding recheck remove charges
first-gets_in w t ts expired s idle queue =
    let free : w.budget.used ≡ 0 = s.exact ∙ rw idle refl in
    let fit : AllFit w.budget.capacity (t ∷ ts) = rw queue at s.fitting in
    rw queue (ground (arith, fit.0))

-- How many imports wait before this one.
pub ahead : ℕ → List Ticket → ℕ
ahead i [] = 0
ahead i (t ∷ ts) = let rest = ahead i ts in if is_ticket i t then 0 else suc rest

abbrev pub is_waiting : ℕ → World → Bool
is_waiting i w = any (is_ticket i) w.budget.waiting

ahead-append :
    (i : ℕ) (ts us : List Ticket) → any (is_ticket i) ts ≡ true → ahead i (ts ++ us) ≡ ahead i ts
unfolding ahead
ahead-append i [] us h = cc
ahead-append i (t ∷ ts) us h = ground (arith, ahead-append i ts us)

-- Another import that leaves the queue sends no one back.
ahead-remove : (i j : ℕ) (ts : List Ticket) → i ≢ j → ahead i (remove j ts) ≤ ahead i ts
unfolding ahead remove
ahead-remove i j [] ne = omega arith
ahead-remove i j (t ∷ ts) ne = ground (arith, ahead-remove i j ts)

ahead-remove_first :
    (i j : ℕ) (ts : List Ticket)
    → is_first j ts ≡ true
    → i ≢ j
    → suc (ahead i (remove j ts)) ≡ ahead i ts
unfolding ahead remove
ahead-remove_first i j [] f ne = cc
ahead-remove_first i j (t ∷ ts) f ne = ground arith

any-count : (i : ℕ) (ts : List Ticket) → any (is_ticket i) ts ≡ true → 1 ≤ count_by (is_ticket i) ts
any-count i [] h = cc
any-count i (t ∷ ts) h = ground (arith, any-count i ts)

-- A ticket that stands once in the queue is not in it when it has been removed.
remove-gone :
    (i : ℕ) (ts : List Ticket)
    → count_by (is_ticket i) ts ≤ 1
    → any (is_ticket i) (remove i ts) ≡ true
    → ⊥
unfolding remove
remove-gone i [] one h = cc
remove-gone i (t ∷ ts) one h = ground (arith, remove-gone i ts, any-count i ts)

-- No import enters past one that waits.
no_entry :
    (w : World) (b : ImportBudget) (i : ℕ) (t : Ticket) (m : Bool)
    → acquire w.budget t m ≡ (taken, b)
    → is_waiting i w ≡ true
    → ⊥
no_entry w b i t m h before =
    let (alone, room, e) = acquire-taken w.budget b t m h in
    let none_waits : any (is_ticket i) w.budget.waiting ≡ false = rw alone refl in cc

left_by_another :
    (w : World) (b : ImportBudget) (i : ℕ) (t : Ticket)
    → count_by (is_ticket i) w.budget.waiting ≤ 1
    → b.waiting ≡ remove t.id w.budget.waiting
    → any (is_ticket i) b.waiting ≡ true
    → i ≢ t.id
left_by_another w b i t one e after same =
    remove-gone i w.budget.waiting one (rw same (rw same at (rw e at after)))

-- While an import waits, no step sends it back in the queue; and each other import that a step lets
-- in brings it one place forward, so that only those ahead of it get in before it.
pub Step-turns :
    (w v : World) (i : ℕ)
    → Step w v
    → count_by (is_ticket i) w.budget.waiting ≤ 1
    → is_waiting i w ≡ true
    → is_waiting i v ≡ true
    → (ahead i v.budget.waiting ≤ ahead i w.budget.waiting)
      × (length w.holders < length v.holders → ahead i v.budget.waiting < ahead i w.budget.waiting)
unfolding release
Step-turns w _ i (enters t size b c h) one before after = absurd (no_entry w b i t true h before)
Step-turns w _ i (enters_at_once t size b c h) one before after =
    absurd (no_entry w b i t false h before)
Step-turns w _ i (queues t size b c new h) one before after =
    let e = acquire-waits w.budget b t h in
    let l = ahead-append i w.budget.waiting (t ∷ []) before in
    (rw e (omega (arith, l)), λ more. absurd (omega arith))
Step-turns w _ i (takes t expired b xs ys m h) one before after =
    let (first, room, e) = recheck-taken w.budget b t expired h in
    let other : i ≢ t.id =
      left_by_another w b i t one (ap (λ (x : ImportBudget). x.waiting) e) after in
    let step = ahead-remove_first i t.id w.budget.waiting first other in
    (rw e (omega (arith, step)), λ more. rw e (omega (arith, step)))
Step-turns w _ i (gives_up t b xs ys m h) one before after =
    let e = recheck-refused w.budget b t h in
    let other : i ≢ t.id =
      left_by_another w b i t one (ap (λ (x : ImportBudget). x.waiting) e) after in
    (rw e (ahead-remove i t.id w.budget.waiting other), λ more. absurd (omega arith))
Step-turns w _ i (releases t xs ys e) one before after = (
  omega arith,
  λ more.
      absurd
        (omega (arith, ap (length {A = Ticket}) e, length-append xs (t ∷ ys), length-append xs ys)),
)
