-- ===== src/Proc/Scheduler/Fair.antt =====
-- No ready task waits for ever for its turn, whatever the other tasks do.
use oxide_os.Prelude.{
  ℕ, ◌+◌, ◌-◌, ◌%◌, ◌<◌, ◌≤◌, true, false, Option, none, some, List, [], ◌∷◌, length, ◌≡◌, ◌⊎◌, inl,
  inr, refl, sym, ap, ◌∙◌, All, arith, ℕ_discrete, dec_lt,
}
use oxide_os.Proc.Task.{max_tasks}
use oxide_os.Proc.Scheduler.{Tasks, choose}
use oxide_os.Proc.Scheduler.Choose.{ready_at, place, Chooses, nobody, next, choose-Chooses}

-- The choices over a sequence of tables, each one from the task that was chosen before.
unfoldable pub choices : ℕ → List Tasks → List (Option ℕ)
choices current [] = []
choices current (tasks ∷ tables) = elim (choose current tasks) [
  | none ↦ none ∷ choices current tables
  | some idx ↦ some idx ∷ choices idx tables
]

abbrev pub Serves : ℕ → List (Option ℕ) → Type 0
Serves i [] = ⊥
Serves i (o ∷ os) = (o ≡ some i) ⊎ Serves i os

-- The places that the search passes before it comes to a task.
abbrev distance : ℕ → ℕ → ℕ
distance current i = (i + max_tasks - place current 1) % max_tasks

-- A choice takes the task, or another one that is nearer before it.
nearer :
    (tasks : Tasks) (current i : ℕ) (o : Option ℕ)
    → i < max_tasks
    → ready_at tasks i ≡ true
    → Chooses tasks max_tasks (place current 1) o
    → (o ≡ some i) ⊎ ((j : ℕ) × (o ≡ some j) × (distance j i < distance current i))
nearer tasks current i none h e (nobody all) =
    let there : place (place current 1) (distance current i) ≡ i = omega arith in
    let q : true ≡ false =
      sym e ∙ ap (ready_at tasks) (sym there) ∙ all (distance current i) (omega arith) in
    absurd (let z : ⊥ = cc in z)
nearer tasks current i o h e (next k l t before) =
    let there : place (place current 1) (distance current i) ≡ i = omega arith in
    elim (dec_lt (distance current i) k) [
      | yes past ↦
          let q : true ≡ false =
            sym e ∙ ap (ready_at tasks) (sym there) ∙ before (distance current i) past in
          absurd (let z : ⊥ = cc in z)
      | no not_past ↦ elim (ℕ_discrete k (distance current i)) [
        | yes here ↦ inl (ap (λ x. some (place (place current 1) x)) here ∙ ap some there)
        | no ne ↦ inr (place (place current 1) k, refl, omega (arith, not_past, ne))
      ]
    ]

choices-Serves :
    (i : ℕ) (tables : List Tasks) (current : ℕ)
    → i < max_tasks
    → All (λ tasks. ready_at tasks i ≡ true) tables
    → distance current i < length tables
    → Serves i (choices current tables)
unfolding choices
choices-Serves i [] current h all near = absurd (omega arith)
choices-Serves i (tasks ∷ tables) current h (e, all) near =
    elim (nearer tasks current i (choose current tasks) h e (choose-Chooses tasks current)) [
      | inl now ↦ simp (choices, now) (inl refl)
      | inr (j, c, closer) ↦ simp (choices, c) (inr (choices-Serves i tables j h all (omega arith)))
    ]

-- A task that is ready at every choice is chosen at one of any eight successive choices, whatever
-- the other tasks do in between.
pub choices_serve :
    (i : ℕ) (tables : List Tasks) (current : ℕ)
    → i < max_tasks
    → All (λ tasks. ready_at tasks i ≡ true) tables
    → max_tasks ≤ length tables
    → Serves i (choices current tables)
choices_serve i tables current h all eight = choices-Serves i tables current h all (omega arith)
