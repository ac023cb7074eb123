-- ===== src/Server/Workers/Heard.antt =====
-- Which workers have been heard of.
use statika.Prelude.{
  refl, true, false, [], inl, inr, ◌∷◌, ◌≡◌, arith, ℕ, zero, suc, List, ◌⊎◌, ◌≤◌, Bool, ◌∙◌, ap,
  get_or, length, ◌<◌,
}
use statika.Server.Workers.{finished, timed_out, disconnected, Reception, set_completed, is_new}

abbrev pub Reports : ℕ → List Reception → Type 0
Reports worker_id [] = ⊥
Reports worker_id (r ∷ receptions) =
    (r.received ≡ finished worker_id) ⊎ Reports worker_id receptions

-- The channel is gone once every worker has dropped its end of it.
abbrev pub Disconnects : List Reception → Type 0
Disconnects [] = ⊥
Disconnects (r ∷ receptions) = (r.received ≡ disconnected) ⊎ Disconnects receptions

abbrev pub IsLate : ℕ → Reception → Type 0
IsLate deadline r = (deadline ≤ r.now) ⊎ (r.received ≡ timed_out)

abbrev pub RunsLate : ℕ → List Reception → Type 0
RunsLate deadline [] = ⊥
RunsLate deadline (r ∷ receptions) = IsLate deadline r ⊎ RunsLate deadline receptions

abbrev pub open_workers : List Bool → ℕ
open_workers [] = 0
open_workers (true ∷ completed) = open_workers completed
open_workers (false ∷ completed) = suc (open_workers completed)

pub set_completed-open :
    (completed : List Bool) (i : ℕ)
    → is_new completed i ≡ true
    → suc (open_workers (set_completed completed i)) ≡ open_workers completed
unfolding set_completed is_new
set_completed-open [] i h = absurd (ground arith)
set_completed-open (true ∷ completed) zero h = absurd (ground arith)
set_completed-open (false ∷ completed) zero h = refl
set_completed-open (true ∷ completed) (suc i) h = set_completed-open completed i (ground arith)
set_completed-open (false ∷ completed) (suc i) h =
    ap suc (set_completed-open completed i (ground arith))

pub length-set_completed :
    (completed : List Bool) (i : ℕ) → length (set_completed completed i) ≡ length completed
unfolding set_completed
length-set_completed [] i = refl
length-set_completed (c ∷ completed) zero = refl
length-set_completed (c ∷ completed) (suc i) = ap suc (length-set_completed completed i)

pub get_or-set_completed :
    (completed : List Bool) (i j : ℕ)
    → get_or (set_completed completed i) j false ≡ true
    → (i ≡ j) ⊎ (get_or completed j false ≡ true)
unfolding set_completed
get_or-set_completed [] i j h = inr h
get_or-set_completed (c ∷ completed) zero zero h = inl refl
get_or-set_completed (c ∷ completed) zero (suc j) h = inr h
get_or-set_completed (c ∷ completed) (suc i) zero h = inr h
get_or-set_completed (c ∷ completed) (suc i) (suc j) h =
    elim (get_or-set_completed completed i j h) [ inl e ↦ inl (ap suc e) | inr e ↦ inr e ]

pub all_completed :
    (completed : List Bool) (i : ℕ)
    → open_workers completed ≡ 0
    → i < length completed
    → get_or completed i false ≡ true
all_completed [] i e h = absurd (omega arith)
all_completed (false ∷ completed) i e h = absurd (omega arith)
all_completed (true ∷ completed) zero e h = refl
all_completed (true ∷ completed) (suc i) e h = all_completed completed i e (omega arith)

-- Every worker is heard of, by the numbers that are taken down or still to come.
abbrev pub HeardOf : List Bool → List Reception → Type 0
HeardOf completed receptions =
    (i : ℕ) → i < length completed → (get_or completed i false ≡ true) ⊎ Reports i receptions

pub heard_later :
    (completed : List Bool) (r : Reception) (receptions : List Reception)
    → Disconnects receptions ⊎ HeardOf completed receptions
    → Disconnects (r ∷ receptions) ⊎ HeardOf completed (r ∷ receptions)
heard_later completed r receptions (inl d) = inl (inr d)
heard_later completed r receptions (inr h) =
    inr (λ i l. elim (h i l) [ inl c ↦ inl c | inr later ↦ inr (inr later) ])

pub heard_now :
    (completed : List Bool) (i : ℕ) (r : Reception) (receptions : List Reception)
    → r.received ≡ finished i
    → Disconnects receptions ⊎ HeardOf (set_completed completed i) receptions
    → Disconnects (r ∷ receptions) ⊎ HeardOf completed (r ∷ receptions)
heard_now completed i r receptions e (inl d) = inl (inr d)
heard_now completed i r receptions e (inr h) = inr (λ j l.
    elim (h j (omega (arith, length-set_completed completed i))) [
      | inl c ↦ elim (get_or-set_completed completed i j c) [
        | inl same ↦ inr (inl (e ∙ ap finished same))
        | inr before ↦ inl before
      ]
      | inr later ↦ inr (inr later)
    ])
