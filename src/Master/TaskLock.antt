-- ===== src/Master/TaskLock.antt =====
-- opendnp3/master/MultidropTaskLock.h and MultidropTaskLock.cpp: the masters that share a channel take turns.
-- A callback is known by a number, its address. `release` answers the callback that `OnPendingTask` is called on,
-- as the last thing that `Release` does.
use dnp.Prelude.{
  ℕ, zero, suc, Bool, true, false, not, ◌&&◌, ◌||◌, Option, none, some, List, [], ◌∷◌, ◌++◌,
  if◌then◌else◌, ◌==◌,
}
pub mod Turns

pub record MultidropTaskLock : Type 0 where
  pub callback_set : List ℕ
  pub callback_queue : List ℕ
  pub is_online : Bool
  pub active : Option ℕ

unfoldable pub new_lock : MultidropTaskLock
new_lock = record { callback_set = []; callback_queue = []; is_online = false; active = none }

-- `set::find` and `set::erase`.
unfoldable pub contains : ℕ → List ℕ → Bool
contains c [] = false
contains c (d ∷ ds) = c == d || contains c ds

unfoldable pub erase : ℕ → List ℕ → List ℕ
erase c [] = []
erase c (d ∷ ds) = let rest = erase c ds in if c == d then rest else d ∷ rest

unfoldable pub add_if_not_contained : ℕ → MultidropTaskLock → Bool × MultidropTaskLock
add_if_not_contained c l = if contains c l.callback_set then (false, l) else (
  true,
  record l { callback_set = c ∷ l.callback_set; callback_queue = l.callback_queue ++ (c ∷ []) },
)

unfoldable pub acquire_held : ℕ → Option ℕ → MultidropTaskLock → Bool × MultidropTaskLock
acquire_held c none l = (true, record l { active = some c })
acquire_held c (some a) l = if c == a then (true, l) else (false, (add_if_not_contained c l).1)

unfoldable pub acquire : ℕ → MultidropTaskLock → Bool × MultidropTaskLock
acquire c l = if l.is_online then acquire_held c l.active l else (false, l)

unfoldable pub is_active : ℕ → Option ℕ → Bool
is_active c none = false
is_active c (some a) = c == a

unfoldable pub next_active : List ℕ → MultidropTaskLock → Option ℕ × MultidropTaskLock
next_active [] l = (none, record l { active = none })
next_active (c ∷ cs) l = (
  some c,
  record l { active = some c; callback_queue = cs; callback_set = erase c l.callback_set },
)

unfoldable pub release : ℕ → MultidropTaskLock → Option ℕ × MultidropTaskLock
release c l =
    if l.is_online && is_active c l.active then next_active l.callback_queue l else (none, l)

unfoldable pub on_layer_up : MultidropTaskLock → MultidropTaskLock
on_layer_up l = if l.is_online then l else record l { is_online = true }

unfoldable pub on_layer_down : MultidropTaskLock → MultidropTaskLock
on_layer_down l =
    if l.is_online
    then record { callback_set = []; callback_queue = []; is_online = false; active = none }
    else l
