-- ===== src/Channel/Examples.antt =====
-- The router on a concrete channel.
use dnp.Prelude.{true, false, some, List, [], ◌∷◌, ◌≡◌, ◌↔◌, refl}
use dnp.Link.Function.{sec_ack}
use dnp.Link.Header.{LinkHeaderFields}
use dnp.Channel.Router.{
  Route, Record, LinkLayerRouter, Action, transmit_result, begin_write, new_router,
  get_enabled_context, on_frame, get_destination, is_route_in_use, equals, find_record,
  begin_transmit, check_for_send, on_send_result,
}
use dnp.Channel.Router.Distinct.{distinct, serves, on_frame-serves}
use dnp.Channel.Router.Events.{
  Event, adds, enables, transmits, sent, goes_up, run, step, Valid, InOrder, new_router-Valid,
}
use dnp.Channel.Router.Order.{run-InOrder}

abbrev near : Route
near = record { destination = 10; source = 1 }

abbrev far : Route
far = record { destination = 11; source = 1 }

abbrev two_records : List Record
two_records =
    record { context = 100; route = near; enabled = false }
    ∷ record { context = 200; route = far; enabled = true }
    ∷ []

two_records-distinct : distinct two_records ≡ true
unfolding distinct is_route_in_use equals find_record
two_records-distinct = refl

abbrev two_contexts : LinkLayerRouter
two_contexts = record {
  records = two_records;
  transmit_queue = [];
  is_transmitting = false;
  is_online = true;
}

abbrev from_far : LinkHeaderFields
from_far = record {
  func = sec_ack;
  is_from_master = false;
  fcb = false;
  fcvdfc = false;
  dest = 1;
  src = 11;
}

from_far_given : on_frame from_far two_contexts ≡ some 200
unfolding on_frame get_destination get_enabled_context equals
from_far_given = refl

on_frame-serves_example :
    (on_frame from_far two_contexts ≡ some 200)
    ↔ (serves 200 (record { destination = 11; source = 1 }) two_records ≡ true)
on_frame-serves_example = on_frame-serves 200 from_far two_contexts two_records-distinct

abbrev traffic : List Event
traffic =
    adds 100 near
    ∷ enables 100
    ∷ goes_up true
    ∷ transmits (record { buffer = 1 ∷ []; context = 100 }) true
    ∷ transmits (record { buffer = 2 ∷ []; context = 100 }) true
    ∷ sent true true
    ∷ sent true true
    ∷ []

-- The second frame is written once the first has its result.
traffic_written :
    run
      (transmits (record { buffer = 1 ∷ []; context = 100 }) true
        ∷ transmits (record { buffer = 2 ∷ []; context = 100 }) true
        ∷ sent true true
        ∷ [])
      (record { records = []; transmit_queue = []; is_transmitting = false; is_online = true })
    ≡ some (
      begin_write (1 ∷ []) ∷ transmit_result 100 true ∷ begin_write (2 ∷ []) ∷ [],
      record {
        records = [];
        transmit_queue = record { buffer = 2 ∷ []; context = 100 } ∷ [];
        is_transmitting = true;
        is_online = true;
      },
    )
unfolding run step begin_transmit check_for_send on_send_result
traffic_written = refl

run-InOrder_example :
    (x : List Action × LinkLayerRouter) × (run traffic new_router ≡ some x)
    × Valid x.1
    × InOrder traffic new_router x
run-InOrder_example = run-InOrder traffic new_router new_router-Valid
