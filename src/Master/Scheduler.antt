-- ===== src/Master/Scheduler.antt =====
-- opendnp3/master: TaskComparison.cpp, MasterScheduler.cpp and what IMasterTask.cpp keeps of a task. A task is
-- known by a number; its priority is one of the constants of TaskPriority.h, where a lower number comes first. A time
-- is a number of milliseconds up to the maximum of 63 bits, and `can_run` is the filter's answer for a task.
use dnp.Prelude.{
  ℕ, zero, suc, ◌+◌, Bool, true, false, not, ◌&&◌, ◌||◌, Option, none, some, List, [], ◌∷◌, ◌++◌,
  if◌then◌else◌, ◌==◌, ltb, leb,
}
pub mod Compare
pub mod Choice

abbrev pub max_time : ℕ
max_time = 9223372036854775807

-- `TaskState`.
pub record TaskState : Type 0 where
  pub disabled : Bool
  pub expiration : ℕ

abbrev pub immediately : TaskState
immediately = record { disabled = false; expiration = 0 }

abbrev pub infinite : TaskState
infinite = record { disabled = false; expiration = max_time }

abbrev pub retry : ℕ → TaskState
retry time = record { disabled = false; expiration = time }

abbrev pub disabled : TaskState
disabled = record { disabled = true; expiration = max_time }

pub record MasterTask : Type 0 where
  pub id : ℕ
  pub priority : ℕ
  pub blocks_lower_priority : Bool
  pub is_recurring : Bool
  pub is_enabled : Bool
  pub state : TaskState
  pub start_expiration : ℕ

unfoldable pub expiration_time : MasterTask → ℕ
expiration_time t = if not t.state.disabled && t.is_enabled then t.state.expiration else max_time

unfoldable pub demand : MasterTask → MasterTask
demand t = record t { state = immediately }

pub data Selected : Type 0 where
  left right same : Selected

unfoldable pub higher_priority : MasterTask → MasterTask → Selected
higher_priority lhs rhs =
    if ltb lhs.priority rhs.priority
    then left
    else if ltb rhs.priority lhs.priority
    then right
    else same

unfoldable pub is_right : Selected → Bool
is_right right = true
is_right _ = false

unfoldable pub erase_at : ℕ → List MasterTask → List MasterTask
erase_at i [] = []
erase_at zero (t ∷ ts) = ts
erase_at (suc i) (t ∷ ts) = t ∷ erase_at i ts

-- `GetNext`: the task to start, or the time at which to ask again.
pub data Next : Type 0 where
  start : MasterTask → Next
  wait_until : ℕ → Next

module _ (can_run : MasterTask → Bool) (now : ℕ) where
  unfoldable pub enabled : MasterTask → Bool
  enabled t = not (expiration_time t == max_time) && can_run t

  unfoldable pub by_time : MasterTask → MasterTask → Selected
  by_time lhs rhs =
      let left_time = expiration_time lhs in
      let right_time = expiration_time rhs in
      if leb left_time now && leb right_time now
      then higher_priority lhs rhs
      else if ltb left_time right_time
      then left
      else if ltb right_time left_time
      then right
      else higher_priority lhs rhs

  unfoldable pub select_higher_priority : MasterTask → MasterTask → Selected
  select_higher_priority lhs rhs =
      if not (enabled lhs) || not (enabled rhs)
      then (if enabled rhs then right else left)
      else if ltb rhs.priority lhs.priority && rhs.blocks_lower_priority
      then right
      else if ltb lhs.priority rhs.priority && lhs.blocks_lower_priority
      then left
      else by_time lhs rhs

  -- The loop of `GetNextTask`: the best task so far with its place, and the place of the next.
  unfoldable pub get_next_from : (ℕ × MasterTask) → ℕ → List MasterTask → ℕ × MasterTask
  get_next_from best place [] = best
  get_next_from best place (t ∷ ts) =
      get_next_from (if is_right (select_higher_priority best.1 t) then (place, t) else best)
        (suc place) ts

  unfoldable pub get_next_task : List MasterTask → Option (ℕ × MasterTask)
  get_next_task [] = none
  get_next_task (t ∷ ts) = some (get_next_from (0, t) 1 ts)

  unfoldable pub get_next_of : Option (ℕ × MasterTask) → List MasterTask → Next × List MasterTask
  get_next_of none tasks = (wait_until max_time, tasks)
  get_next_of (some (place, t)) tasks =
      if leb (expiration_time t) now && can_run t
      then (start t, erase_at place tasks)
      else (wait_until (if can_run t then expiration_time t else max_time), tasks)

  unfoldable pub get_next : List MasterTask → Next × List MasterTask
  get_next tasks = get_next_of (get_next_task tasks) tasks

  unfoldable pub is_timed_out : MasterTask → Bool
  is_timed_out t = not (t.is_recurring || ltb now t.start_expiration)

  -- `CheckTaskStartTimeout`: the tasks that stay, and those that `OnStartTimeout` is called on.
  unfoldable pub check_task_start_timeout : List MasterTask → List MasterTask × List MasterTask
  check_task_start_timeout [] = ([], [])
  check_task_start_timeout (t ∷ ts) =
      let rest = check_task_start_timeout ts in
      if is_timed_out t then (rest.0, t ∷ rest.1) else (t ∷ rest.0, rest.1)

-- `RecalculateTaskStartTimeout`: the time that the filter is given.
unfoldable pub task_start_timeout : ℕ → List MasterTask → ℕ
task_start_timeout min [] = min
task_start_timeout min (t ∷ ts) =
    task_start_timeout
      (if not t.is_recurring && ltb t.start_expiration min then t.start_expiration else min) ts

unfoldable pub recalculate_task_start_timeout : List MasterTask → ℕ
recalculate_task_start_timeout tasks = task_start_timeout max_time tasks

unfoldable pub schedule : MasterTask → List MasterTask → List MasterTask × ℕ
schedule t tasks = let added = tasks ++ (t ∷ []) in (added, recalculate_task_start_timeout added)
