-- ===== src/Scheduler/Table.antt =====
-- Lemmas on the updates of app/services/scheduler.py: what they do to a row and to a count.
use ai_agent_first_trust_por.Prelude.{
  ◌+◌, ◌≤◌, String, Bool, true, ◌&&◌, none, some, List, [], ◌∷◌, ◌++◌, ◌≡◌, refl, arith, find,
  count_by, if◌then◌else◌,
}
use ai_agent_first_trust_por.Scheduler.Runs.{Run, is_active, has_target, find_run, update}

-- an active run of a target
abbrev pub is_active_of : String → Run → Bool
is_active_of t r = has_target t r && is_active r

-- An update that keeps ids changes the row that is found under an id, if its condition holds of it.
pub find-update :
    (p : Run → Bool) (f : Run → Run) (i : String) (rows : List Run) (r : Run)
    → ((x : Run) → (f x).id ≡ x.id)
    → find_run i rows ≡ some r
    → find_run i (update p f rows) ≡ some (if p r then f r else r)
unfolding update
find-update p f i [] r keeps h = cc
find-update p f i (x ∷ rows) r keeps h = ground (arith, find-update p f i rows r keeps, keeps x)

pub find-update-none :
    (p : Run → Bool) (f : Run → Run) (i : String) (rows : List Run)
    → ((x : Run) → (f x).id ≡ x.id)
    → find_run i rows ≡ none
    → find_run i (update p f rows) ≡ none
unfolding update
find-update-none p f i [] keeps h = refl
find-update-none p f i (x ∷ rows) keeps h =
    ground (arith, find-update-none p f i rows keeps, keeps x)

-- An update that leaves alone what is not counted counts no more afterwards.
pub count-update :
    (q p : Run → Bool) (f : Run → Run) (rows : List Run)
    → ((x : Run) → p x ≡ true → q (f x) ≡ true → q x ≡ true)
    → count_by q (update p f rows) ≤ count_by q rows
unfolding update
count-update q p f [] h = omega arith
count-update q p f (x ∷ rows) h = ground (arith, count-update q p f rows h, h x)

pub count-find-none {ℓ} :
    {A : Type ℓ} (q : A → Bool) (rows : List A) → find q rows ≡ none → count_by q rows ≡ 0
count-find-none q [] h = refl
count-find-none q (x ∷ rows) h = ground (arith, count-find-none q rows)

pub count-append {ℓ} :
    {A : Type ℓ} (q : A → Bool) (xs ys : List A)
    → count_by q (xs ++ ys) ≡ count_by q xs + count_by q ys
count-append q [] ys = omega arith
count-append q (x ∷ xs) ys = ground (arith, count-append q xs ys)

pub find-append_none {ℓ} :
    {A : Type ℓ} (q : A → Bool) (xs ys : List A) → find q xs ≡ none → find q (xs ++ ys) ≡ find q ys
find-append_none q [] ys h = refl
find-append_none q (x ∷ xs) ys h = ground (arith, find-append_none q xs ys)

pub find-append_some {ℓ} :
    {A : Type ℓ} (q : A → Bool) (xs ys : List A) (a : A)
    → find q xs ≡ some a
    → find q (xs ++ ys) ≡ some a
find-append_some q [] ys a h = cc
find-append_some q (x ∷ xs) ys a h = ground (arith, find-append_some q xs ys a)
