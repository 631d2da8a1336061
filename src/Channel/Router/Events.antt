-- ===== src/Channel/Router/Events.antt =====
-- The calls of LinkLayerRouter as events, what a router keeps, and what order means.
use dnp.Prelude.{
  ℕ, Bool, true, false, not, ◌&&◌, ◌||◌, Option, none, some, List, [], ◌∷◌, ◌++◌, if◌then◌else◌,
  ◌≡◌, refl,
}
use dnp.Channel.Router.{
  Route, Transmission, LinkLayerRouter, Action, transmit_result, begin_write, new_router,
  add_context, enable, disable, remove, begin_transmit, on_send_result, on_lower_layer_up,
  on_lower_layer_down,
}
use dnp.Channel.Router.Distinct.{distinct}

-- A call, with what the physical layer and the monitor answer in it.
pub data Event : Type 0 where
  adds : ℕ → Route → Event
  enables disables : ℕ → Event
  removes : ℕ → Bool → Event
  transmits : Transmission → Bool → Event
  sent : Bool → Bool → Event
  goes_up : Bool → Event
  goes_down : Event

-- A result comes only while a write is under way.
unfoldable pub step : Event → LinkLayerRouter → Option (List Action × LinkLayerRouter)
step (adds c route) l = some ([], (add_context c route l).1)
step (enables c) l = some ((enable c l).1, (enable c l).2)
step (disables c) l = some ((disable c l).1, (disable c l).2)
step (removes c is_open) l = some ((remove c is_open l).1, (remove c is_open l).2)
step (transmits tx can_write) l = some (begin_transmit tx.buffer tx.context can_write l)
step (sent result can_write) l =
    if l.is_transmitting then on_send_result result can_write l else some ([], l)
step (goes_up can_read) l = some (on_lower_layer_up can_read l)
step goes_down l = some (on_lower_layer_down l)

unfoldable pub run : List Event → LinkLayerRouter → Option (List Action × LinkLayerRouter)
run [] l = some ([], l)
run (e ∷ es) l = elim (step e l) [
  | none ↦ none
  | some here ↦ elim (run es here.1) [
    | none ↦ none
    | some later ↦ some (here.0 ++ later.0, later.1)
  ]
]

unfoldable pub idle : List Transmission → Bool
idle [] = true
idle (tx ∷ queue) = false

-- The frame that is written is the first of the queue, and a channel that is down has neither.
pub record Valid (l : LinkLayerRouter) : Type 0 where
  pub separate : distinct l.records ≡ true
  pub front : (l.is_transmitting && idle l.transmit_queue) ≡ false
  pub down : (l.is_online || (not l.is_transmitting && idle l.transmit_queue)) ≡ true

pub new_router-Valid : Valid new_router
unfolding distinct idle
new_router-Valid = record { separate = refl; front = refl; down = refl }

-- The contexts that wait for a result, and the frames that are not yet written.
unfoldable pub contexts : List Transmission → List ℕ
contexts [] = []
contexts (tx ∷ queue) = tx.context ∷ contexts queue

unfoldable pub buffers : List Transmission → List (List ℕ)
buffers [] = []
buffers (tx ∷ queue) = tx.buffer ∷ buffers queue

unfoldable pub unsent : Bool → List Transmission → List (List ℕ)
unsent transmitting [] = []
unsent true (tx ∷ queue) = buffers queue
unsent false (tx ∷ queue) = tx.buffer ∷ buffers queue

-- The contexts that are given a result, and the frames that are written.
unfoldable pub results : List Action → List ℕ
results [] = []
results (transmit_result c result ∷ actions) = c ∷ results actions
results (_ ∷ actions) = results actions

unfoldable pub written : List Action → List (List ℕ)
written [] = []
written (begin_write buffer ∷ actions) = buffer ∷ written actions
written (_ ∷ actions) = written actions

-- What is accepted is answered and written in its order, and what is not stays in its order.
unfoldable pub Kept : LinkLayerRouter → List Transmission → List Action × LinkLayerRouter → Type 0
Kept l accepted x =
    (contexts l.transmit_queue ++ contexts accepted ≡ results x.0 ++ contexts x.1.transmit_queue)
    × (unsent l.is_transmitting l.transmit_queue ++ buffers accepted
        ≡ written x.0 ++ unsent x.1.is_transmitting x.1.transmit_queue)

-- What a call hands over to be written.
unfoldable pub accepted : Event → List Transmission
accepted (transmits tx can_write) = tx ∷ []
accepted _ = []

-- Every call but the one that takes the channel down.
unfoldable pub is_steady : Event → Bool
is_steady goes_down = false
is_steady _ = true

-- All that a sequence of calls hands over.
unfoldable pub all_accepted : List Event → List Transmission
all_accepted [] = []
all_accepted (e ∷ es) = accepted e ++ all_accepted es

unfoldable pub all_steady : List Event → Bool
all_steady [] = true
all_steady (e ∷ es) = is_steady e && all_steady es

-- While the channel stays up.
unfoldable pub InOrder : List Event → LinkLayerRouter → List Action × LinkLayerRouter → Type 0
InOrder es l x =
    all_steady es ≡ true → l.is_online ≡ true → (x.1.is_online ≡ true) × Kept l (all_accepted es) x
