-- ===== src/Channel/Router.antt =====
-- asiodnp3/LinkLayerRouter.h and LinkLayerRouter.cpp, with opendnp3/Route.h and the flag of
-- PhysicalLayerMonitor.cpp: the link layers that share a channel. A context is a number, its address.
-- What the physical layer answers to CanRead and CanWrite, and whether the monitor's state is OPEN, are
-- arguments of the call.
pub mod Distinct
pub mod Events
mod Queue
mod Calls
pub mod Order
use dnp.Prelude.{
  ℕ, Bool, true, false, not, ◌&&◌, ◌||◌, Option, none, some, List, [], ◌∷◌, ◌++◌, if◌then◌else◌,
  ◌==◌,
}
use dnp.Link.Header.{LinkHeaderFields}

pub record Route : Type 0 where
  pub destination : ℕ
  pub source : ℕ

unfoldable pub equals : Route → Route → Bool
equals r rhs = r.destination == rhs.destination && r.source == rhs.source

pub record Record : Type 0 where
  pub context : ℕ
  pub route : Route
  pub enabled : Bool

pub record Transmission : Type 0 where
  pub buffer : List ℕ
  pub context : ℕ

pub record LinkLayerRouter : Type 0 where
  pub records : List Record
  pub transmit_queue : List Transmission
  pub is_transmitting : Bool
  pub is_online : Bool

-- The calls that the router makes.
pub data Action : Type 0 where
  layer_up layer_down : ℕ → Action
  transmit_result : ℕ → Bool → Action
  begin_write : List ℕ → Action
  begin_read start_request suspend_request : Action

abbrev pub new_router : LinkLayerRouter
new_router = record {
  records = [];
  transmit_queue = [];
  is_transmitting = false;
  is_online = false;
}

unfoldable pub is_route_in_use : Route → List Record → Bool
is_route_in_use route [] = false
is_route_in_use route (r ∷ rs) = equals r.route route || is_route_in_use route rs

-- `find_if` of a context.
unfoldable pub find_record : ℕ → List Record → Option Record
find_record c [] = none
find_record c (r ∷ rs) = let rest = find_record c rs in if r.context == c then some r else rest

-- The store into the record that `find_if` gives, and its removal.
unfoldable pub set_enabled : ℕ → Bool → List Record → List Record
set_enabled c value [] = []
set_enabled c value (r ∷ rs) =
    let rest = set_enabled c value rs in
    if r.context == c then record r { enabled = value } ∷ rs else r ∷ rest

unfoldable pub erase_record : ℕ → List Record → List Record
erase_record c [] = []
erase_record c (r ∷ rs) = let rest = erase_record c rs in if r.context == c then rs else r ∷ rest

unfoldable pub has_enabled_context : List Record → Bool
has_enabled_context [] = false
has_enabled_context (r ∷ rs) = r.enabled || has_enabled_context rs

unfoldable pub add_context : ℕ → Route → LinkLayerRouter → Bool × LinkLayerRouter
add_context c route l =
    if is_route_in_use route l.records then (false, l) else elim (find_record c l.records) [
      | none ↦ (
        true,
        record l {
          records = l.records ++ (record { context = c; route = route; enabled = false } ∷ []);
        },
      )
      | some r ↦ (false, l)
    ]

unfoldable pub enable : ℕ → LinkLayerRouter → Bool × List Action × LinkLayerRouter
enable c l = elim (find_record c l.records) [
  | none ↦ (false, [], l)
  | some r ↦ if r.enabled then (true, [], l) else (
    true,
    (if l.is_online then layer_up c ∷ [] else []) ++ (start_request ∷ []),
    record l { records = set_enabled c true l.records },
  )
]

-- The request to suspend once no record is enabled.
unfoldable pub check_suspend : List Record → List Action
check_suspend rs = if has_enabled_context rs then [] else suspend_request ∷ []

unfoldable pub disable : ℕ → LinkLayerRouter → Bool × List Action × LinkLayerRouter
disable c l = elim (find_record c l.records) [
  | none ↦ (false, [], l)
  | some r ↦
      if r.enabled
      then (
        true,
        (if l.is_online then layer_down c ∷ [] else [])
            ++ check_suspend (set_enabled c false l.records),
        record l { records = set_enabled c false l.records },
      )
      else (true, [], l)
]

unfoldable pub remove : ℕ → Bool → LinkLayerRouter → Bool × List Action × LinkLayerRouter
remove c is_open l = elim (find_record c l.records) [
  | none ↦ (false, [], l)
  | some r ↦ (
    true,
    (if is_open && r.enabled then layer_down c ∷ [] else [])
        ++ check_suspend (erase_record c l.records),
    record l { records = erase_record c l.records },
  )
]

unfoldable pub get_enabled_context : Route → List Record → Option ℕ
get_enabled_context route [] = none
get_enabled_context route (r ∷ rs) =
    let rest = get_enabled_context route rs in
    if r.enabled && equals r.route route then some r.context else rest

-- `GetDestination`: the frame's source is the route's destination.
unfoldable pub get_destination : ℕ → ℕ → LinkLayerRouter → Option ℕ
get_destination dest src l =
    get_enabled_context (record { destination = src; source = dest }) l.records

-- `OnFrame`: the context whose `OnFrame` is called.
unfoldable pub on_frame : LinkHeaderFields → LinkLayerRouter → Option ℕ
on_frame header l = get_destination header.dest header.src l

unfoldable pub check_for_send : Bool → LinkLayerRouter → List Action × LinkLayerRouter
check_for_send can_write l = elim l.transmit_queue [
  | [] ↦ ([], l)
  | tx ∷ rest ↦
      if not l.is_transmitting && can_write
      then (begin_write tx.buffer ∷ [], record l { is_transmitting = true })
      else ([], l)
]

unfoldable pub begin_transmit : List ℕ → ℕ → Bool → LinkLayerRouter → List Action × LinkLayerRouter
begin_transmit buffer c can_write l =
    if l.is_online
    then check_for_send can_write (record l {
      transmit_queue = l.transmit_queue ++ (record { buffer = buffer; context = c } ∷ []);
    })
    else ([], l)

-- `OnSendResult`: the front of an empty queue is not there.
unfoldable pub on_send_result :
    Bool → Bool → LinkLayerRouter → Option (List Action × LinkLayerRouter)
on_send_result result can_write l = elim l.transmit_queue [
  | [] ↦ none
  | tx ∷ rest ↦
      let sent =
        check_for_send can_write (record l { is_transmitting = false; transmit_queue = rest }) in
      some (transmit_result (tx.context) result ∷ sent.0, sent.1)
]

-- The loops over the enabled records.
unfoldable pub tell_up : List Record → List Action
tell_up [] = []
tell_up (r ∷ rs) = if r.enabled then layer_up r.context ∷ tell_up rs else tell_up rs

unfoldable pub tell_down : List Record → List Action
tell_down [] = []
tell_down (r ∷ rs) = if r.enabled then layer_down r.context ∷ tell_down rs else tell_down rs

-- `OnLowerLayerUp` where the monitor accepts it, with OnPhysicalLayerOpenSuccessCallback.
unfoldable pub on_lower_layer_up : Bool → LinkLayerRouter → List Action × LinkLayerRouter
on_lower_layer_up can_read l =
    ((if can_read then begin_read ∷ [] else []) ++ tell_up l.records, record l { is_online = true })

-- `OnLowerLayerDown` where the monitor accepts it, with OnPhysicalLayerCloseCallback.
unfoldable pub on_lower_layer_down : LinkLayerRouter → List Action × LinkLayerRouter
on_lower_layer_down l = (
  tell_down l.records,
  record l { is_online = false; is_transmitting = false; transmit_queue = [] },
)
