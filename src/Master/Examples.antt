-- ===== src/Master/Examples.antt =====
-- Three masters on one channel and three tasks, on which the theorems of the master are applied.
use dnp.Prelude.{All, arith, ℕ, Bool, true, false, some, List, [], ◌∷◌, ◌≡◌, refl}
use dnp.Master.TaskLock.{
  MultidropTaskLock, new_lock, acquire, release, on_layer_up, acquire_held, add_if_not_contained,
  contains, is_active, next_active, erase,
}
use dnp.Master.TaskLock.Turns.{
  Fair, Call, acquires, releases, layer_up, run, run_new-Fair, release_each, release_each-active,
}
use dnp.Master.Scheduler.{
  MasterTask, retry, start, wait_until, get_next, get_next_task, get_next_from, get_next_of,
  select_higher_priority, by_time, higher_priority, is_right, enabled, expiration_time,
}
use dnp.Master.Scheduler.Compare.{Regular}
use dnp.Master.Scheduler.Choice.{Chosen, get_next-Chosen}

abbrev calls : List Call
calls = layer_up ∷ acquires 1 ∷ acquires 2 ∷ acquires 3 ∷ acquires 2 ∷ releases 1 ∷ []

second_holds :
    run calls new_lock
    ≡ record { callback_set = 3 ∷ []; callback_queue = 3 ∷ []; is_online = true; active = some 2 }
unfolding run release acquire on_layer_up new_lock acquire_held add_if_not_contained contains
    is_active next_active erase
second_holds = refl

run_new-Fair_example : Fair (run calls new_lock)
run_new-Fair_example = run_new-Fair calls

abbrev waiting : MultidropTaskLock
waiting = record {
  callback_set = 3 ∷ 2 ∷ [];
  callback_queue = 2 ∷ 3 ∷ [];
  is_online = true;
  active = some 1;
}

release_each-active_example :
    ((release_each (2 ∷ []) 1 waiting).active ≡ some 3)
    × ((release_each (2 ∷ []) 1 waiting).callback_queue ≡ [])
release_each-active_example = release_each-active (2 ∷ []) 1 3 [] waiting refl refl refl

abbrev task : ℕ → ℕ → Bool → ℕ → MasterTask
task id priority blocking time = record {
  id = id;
  priority = priority;
  blocks_lower_priority = blocking;
  is_recurring = true;
  is_enabled = true;
  state = retry time;
  start_expiration = 9223372036854775807;
}

-- A master that repeats its integrity poll: unsolicited responses are enabled later, a poll of the user
-- is due, and so is a command.
abbrev tasks : List MasterTask
tasks =
    task 1 170 true 300
    ∷ task 2 150 true 200
    ∷ task 3 180 true 9223372036854775807
    ∷ task 4 190 false 50
    ∷ task 5 100 false 0
    ∷ []

abbrev every_task : MasterTask → Bool
every_task t = true

tasks-Regular : All (Regular every_task 100 180) tasks
unfolding Regular expiration_time
tasks-Regular = (
  ((λ k. omega arith), λ f on le. absurd (ground (arith, f))),
  (
    ((λ k. omega arith), λ f on le. absurd (ground (arith, f))),
    (
      ((λ k. omega arith), λ f on le. absurd (ground (arith, f))),
      (
        ((λ k. absurd (ground (arith, k))), λ f on le. absurd (omega (arith, le))),
        (((λ k. omega arith), λ f on le. omega arith), tt),
      ),
    ),
  ),
)

-- The command starts; without it the poll of the user waits for the integrity poll.
command_starts : (get_next every_task 100 tasks).0 ≡ start (task 5 100 false 0)
unfolding get_next get_next_task get_next_from get_next_of select_higher_priority by_time
    higher_priority is_right enabled expiration_time
command_starts = refl

poll_waits :
    (get_next every_task 100 (task 2 150 true 200 ∷ task 4 190 false 50 ∷ [])).0 ≡ wait_until 200
unfolding get_next get_next_task get_next_from get_next_of select_higher_priority by_time
    higher_priority is_right enabled expiration_time
poll_waits = refl

-- With a task before them in priority that is not due and blocks nothing, the poll does not wait.
poll_starts :
    (get_next every_task 100
      (task 2 150 true 200 ∷ task 6 50 false 150 ∷ task 4 190 false 50 ∷ [])).0
    ≡ start (task 4 190 false 50)
unfolding get_next get_next_task get_next_from get_next_of select_higher_priority by_time
    higher_priority is_right enabled expiration_time
poll_starts = refl

get_next-Chosen_example :
    Chosen every_task 100 tasks (get_next every_task 100 tasks).0 (get_next every_task 100 tasks).1
get_next-Chosen_example = get_next-Chosen every_task 100 180 tasks tasks-Regular
