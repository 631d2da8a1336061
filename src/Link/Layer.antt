-- ===== src/Link/Layer.antt =====
-- link/LinkLayer.cpp and the event handlers of LinkContext.cpp: the layer's calls, one event each. A
-- neighbour's call comes with the time that the executor would return.
pub mod Safety
pub mod Progress
pub mod Delivery
use dnp.Prelude.{ℕ, ◌+◌, Option, none, Bool, true, false, List, [], ◌∷◌, if◌then◌else◌, leb, not}
use dnp.Transport.Tx.{ITransportSegment}
use dnp.Link.Function.{
  LinkFunction, pri_reset_link_states, pri_test_link_states, pri_confirmed_user_data,
  pri_unconfirmed_user_data, pri_request_link_status, sec_ack, sec_nack, sec_link_status,
  sec_not_supported, invalid,
}
use dnp.Link.Header.{LinkHeaderFields}
use dnp.Link.Context.{
  LinkContext, PriState, SecState, idle, not_reset, tx_idle, unreset, tx_mode_is_idle,
  tx_mode_is_primary, emit, upper_layer_up, upper_layer_down, start_keep_alive_timer,
  post_status_callback, set_tx_segment, try_pending_pri, try_pending_sec, validate, push_data_up,
}
use dnp.Link.PriStates.{
  try_send_confirmed, try_send_unconfirmed, try_send_request_link_status, on_ack, on_nack,
  on_link_status, on_not_supported, on_transmit_result, on_timeout,
}
use dnp.Link.SecStates.{
  on_reset_link_states, on_request_link_status, on_test_link_status, on_confirmed_user_data,
  sec_on_transmit_result,
}

module _ {S : Type 0} where
  -- The assignments of the state that a handler returns.
  abbrev pub assign_pri : LinkContext S × PriState → LinkContext S
  assign_pri r = record r.0 { pri_state = r.1 }

  abbrev pub assign_sec : LinkContext S × SecState → LinkContext S
  assign_sec r = record r.0 { sec_state = r.1 }

  -- `LinkContext::OnLowerLayerUp`
  unfoldable pub on_lower_layer_up : ℕ → LinkContext S → LinkContext S × Bool
  unfolding start_keep_alive_timer post_status_callback emit
  on_lower_layer_up now c = if c.is_online then (c, false) else (
    emit upper_layer_up (
        post_status_callback unreset
          (start_keep_alive_timer (record c { is_online = true; last_message_timestamp = now }))),
    true,
  )

  -- `LinkContext::OnLowerLayerDown`
  unfoldable pub on_lower_layer_down : LinkContext S → LinkContext S × Bool
  unfolding post_status_callback emit
  on_lower_layer_down c = if not c.is_online then (c, false) else (
    emit upper_layer_down (
        post_status_callback unreset (record c {
          is_online = false;
          keep_alive_timeout = false;
          is_remote_reset = false;
          has_segments = false;
          tx_mode = tx_idle;
          pending_pri_tx = none;
          pending_sec_tx = none;
          rsp_timeout_timer = false;
          keep_alive_timer = false;
          pri_state = idle;
          sec_state = not_reset;
        })),
    true,
  )

module _ {S : Type 0} (source : ITransportSegment S) where
  -- `TryStartTransmission`
  unfoldable pub try_start_keep_alive : LinkContext S → LinkContext S
  unfolding try_send_request_link_status
  try_start_keep_alive c =
      if c.keep_alive_timeout then assign_pri (try_send_request_link_status c.pri_state c) else c

  unfoldable pub try_start_segments : LinkContext S → LinkContext S
  unfolding try_send_confirmed try_send_unconfirmed
  try_start_segments c =
      if c.has_segments
      then (if c.config.use_confirms
          then assign_pri (try_send_confirmed source c.pri_state c)
          else assign_pri (try_send_unconfirmed source c.pri_state c))
      else c

  unfoldable pub try_start_transmission : LinkContext S → LinkContext S
  unfolding try_start_keep_alive try_start_segments
  try_start_transmission c = try_start_segments (try_start_keep_alive c)

  -- `LinkLayer::Send`
  unfoldable pub send : S → LinkContext S → LinkContext S
  unfolding set_tx_segment try_start_transmission
  send s c =
      let (c', started) = set_tx_segment s c in if started then try_start_transmission c' else c'

  -- `LinkContext::OnTransmitResult`: the frames that wait are sent first.
  unfoldable pub transmitted : Bool → LinkContext S → LinkContext S × Bool
  unfolding try_pending_pri try_pending_sec on_transmit_result sec_on_transmit_result
  transmitted success c =
      if tx_mode_is_idle c.tx_mode
      then (c, false)
      else (let c' = try_pending_pri (try_pending_sec (record c { tx_mode = tx_idle })) in
          (
            if tx_mode_is_primary c.tx_mode
                then assign_pri (on_transmit_result source c'.pri_state success c')
                else record c' { sec_state = sec_on_transmit_result c'.sec_state },
            true,
          ))

  -- `LinkLayer::OnTransmitResult`
  unfoldable pub on_tx_result : Bool → LinkContext S → LinkContext S
  unfolding transmitted try_start_transmission
  on_tx_result success c =
      let (c', known) = transmitted success c in if known then try_start_transmission c' else c'

  -- The switch of `LinkContext::OnFrame`.
  unfoldable pub handle_frame :
      LinkFunction → LinkHeaderFields → List ℕ → LinkContext S → LinkContext S × Bool
  unfolding on_ack on_nack on_link_status on_not_supported on_test_link_status on_reset_link_states
      on_request_link_status on_confirmed_user_data push_data_up
  handle_frame sec_ack h userdata c = (assign_pri (on_ack source c.pri_state h.fcvdfc c), true)
  handle_frame sec_nack h userdata c = (assign_pri (on_nack source c.pri_state h.fcvdfc c), true)
  handle_frame sec_link_status h userdata c =
      (assign_pri (on_link_status source c.pri_state h.fcvdfc c), true)
  handle_frame sec_not_supported h userdata c =
      (assign_pri (on_not_supported source c.pri_state h.fcvdfc c), true)
  handle_frame pri_test_link_states h userdata c =
      (assign_sec (on_test_link_status c.sec_state h.fcb c), true)
  handle_frame pri_reset_link_states h userdata c =
      (assign_sec (on_reset_link_states c.sec_state c), true)
  handle_frame pri_request_link_status h userdata c =
      (assign_sec (on_request_link_status c.sec_state c), true)
  handle_frame pri_confirmed_user_data h userdata c =
      (assign_sec (on_confirmed_user_data c.sec_state h.fcb userdata c), true)
  handle_frame pri_unconfirmed_user_data h userdata c = (push_data_up userdata c, true)
  handle_frame invalid h userdata c = (c, false)

  -- `LinkContext::OnFrame`
  unfoldable pub accept_frame : ℕ → LinkHeaderFields → List ℕ → LinkContext S → LinkContext S × Bool
  unfolding validate handle_frame
  accept_frame now h userdata c =
      if not c.is_online
      then (c, false)
      else (if validate h.is_from_master h.src h.dest c
          then handle_frame h.func h userdata (record c { last_message_timestamp = now })
          else (c, false))

  -- `LinkLayer::OnFrame`
  unfoldable pub on_frame : ℕ → LinkHeaderFields → List ℕ → LinkContext S → LinkContext S × Bool
  unfolding accept_frame try_start_transmission
  on_frame now h userdata c =
      let (c', handled) = accept_frame now h userdata c in
      if handled then (try_start_transmission c', handled) else (c', handled)

  -- `OnKeepAliveTimeout`: the test is `now - last >= timeout` without the subtraction.
  unfoldable pub on_keep_alive_timeout : ℕ → LinkContext S → LinkContext S
  unfolding start_keep_alive_timer try_start_transmission
  on_keep_alive_timeout now c =
      let c' =
        if leb (c.last_message_timestamp + c.config.keep_alive_timeout) now
        then record c { last_message_timestamp = now; keep_alive_timeout = true }
        else c in
      try_start_transmission (start_keep_alive_timer c')

  -- `OnResponseTimeout`
  unfoldable pub on_response_timeout : LinkContext S → LinkContext S
  unfolding on_timeout try_start_transmission
  on_response_timeout c = try_start_transmission (assign_pri (on_timeout source c.pri_state c))

  -- A timer that expires: the action runs once the timer is cleared, and only of an active timer.
  unfoldable pub expire_response_timer : LinkContext S → LinkContext S
  unfolding on_response_timeout
  expire_response_timer c =
      if c.rsp_timeout_timer
      then on_response_timeout (record c { rsp_timeout_timer = false })
      else c

  unfoldable pub expire_keep_alive_timer : ℕ → LinkContext S → LinkContext S
  unfolding on_keep_alive_timeout
  expire_keep_alive_timer now c =
      if c.keep_alive_timer
      then on_keep_alive_timeout now (record c { keep_alive_timer = false })
      else c

-- What can happen to the layer.
pub data Event (S : Type 0) : Type 0 where
  lower_layer_up : ℕ → Event S
  lower_layer_down : Event S
  send_segments : S → Event S
  transmit_result : Bool → Event S
  frame : ℕ → LinkHeaderFields → List ℕ → Event S
  response_timer : Event S
  keep_alive_timer_expired : ℕ → Event S

module _ {S : Type 0} (source : ITransportSegment S) where
  unfoldable pub step : Event S → LinkContext S → LinkContext S
  unfolding on_lower_layer_up on_lower_layer_down send on_tx_result on_frame expire_response_timer
      expire_keep_alive_timer
  step (lower_layer_up now) c = (on_lower_layer_up now c).0
  step lower_layer_down c = (on_lower_layer_down c).0
  step (send_segments s) c = send source s c
  step (transmit_result success) c = on_tx_result source success c
  step (frame now h userdata) c = (on_frame source now h userdata c).0
  step response_timer c = expire_response_timer source c
  step (keep_alive_timer_expired now) c = expire_keep_alive_timer source now c

  unfoldable pub run : List (Event S) → LinkContext S → LinkContext S
  unfolding step
  run [] c = c
  run (e ∷ es) c = run es (step e c)
