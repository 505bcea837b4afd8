-- ===== src/Ipc/Stdin/Tests.antt =====
-- The keyboard ring at concrete inputs.
use oxide_os.Prelude.{◌≡◌, refl, none, some, List, [], ◌∷◌, length-replicate, ℕ, arith}
use oxide_os.Ipc.Stdin.{
  IsValid, Event, key, getchar, buf_size, ring_init, contents, push, pop, run, queue_run,
  run_refines,
}

ring_init-IsValid : IsValid ring_init
unfolding ring_init
ring_init-IsValid = record {
  storage = length-replicate {A = ℕ} buf_size 0;
  head_in = omega arith;
  tail_in = omega arith;
}

abbrev typing : List Event
typing = getchar ∷ key 104 ∷ key 105 ∷ getchar ∷ []

typing_runs : (run ring_init typing).0 ≡ none ∷ some 104 ∷ []
unfolding run push pop ring_init
typing_runs = refl

run_refines_example :
    IsValid (run ring_init typing).1
    × (((run ring_init typing).0, contents (run ring_init typing).1)
        ≡ queue_run (contents ring_init) typing)
run_refines_example = run_refines ring_init typing ring_init-IsValid
