-- ===== src/Link/PriStates.antt =====
-- link/PriLinkLayerStates.h and PriLinkLayerStates.cpp: the primary station. Each handler returns the
-- context and the state that its caller assigns to `pPriState`.
use dnp.Prelude.{Bool, true, false, if◌then◌else◌}
use dnp.Transport.Tx.{ITransportSegment}
use dnp.Link.Context.{
  PriState, idle, send_unconfirmed_transmit_wait, link_reset_transmit_wait,
  conf_user_data_transmit_wait, request_link_status_transmit_wait, reset_link_wait, conf_data_wait,
  request_link_status_wait, unreset, is_reset, LinkContext, emit, keep_alive_initiated,
  reset_write_fcb, toggle_write_fcb, queue_reset_links, queue_request_link_status, reset_retry,
  retry, post_status_callback, complete_send_operation, start_response_timer, cancel_timer,
  fail_keep_alive, complete_keep_alive, advance_segments, queue_confirmed, queue_unconfirmed,
}

module _ {S : Type 0} (source : ITransportSegment S) where
  -- `PLLS_Idle::TrySendUnconfirmed`, and `PriStateBase` in every other state.
  unfoldable pub try_send_unconfirmed : PriState → LinkContext S → LinkContext S × PriState
  unfolding queue_unconfirmed
  try_send_unconfirmed idle c = (queue_unconfirmed source c, send_unconfirmed_transmit_wait)
  try_send_unconfirmed p c = (c, p)

  unfoldable pub try_send_confirmed : PriState → LinkContext S → LinkContext S × PriState
  unfolding queue_confirmed queue_reset_links reset_retry
  try_send_confirmed idle c =
      if c.is_remote_reset
      then (queue_confirmed source (reset_retry c), conf_user_data_transmit_wait)
      else (queue_reset_links (reset_retry c), link_reset_transmit_wait)
  try_send_confirmed p c = (c, p)

  -- `Failure` of the two states that wait for an acknowledgement.
  unfoldable pub failure : LinkContext S → LinkContext S × PriState
  unfolding complete_send_operation cancel_timer
  failure c = (complete_send_operation false (cancel_timer c), idle)

  unfoldable pub on_ack : PriState → Bool → LinkContext S → LinkContext S × PriState
  unfolding reset_write_fcb cancel_timer queue_confirmed post_status_callback toggle_write_fcb
      advance_segments complete_send_operation
  on_ack reset_link_wait rx_buff_full c =
      let c' = cancel_timer (reset_write_fcb (record c { is_remote_reset = true })) in
      (post_status_callback is_reset (queue_confirmed source c'), conf_user_data_transmit_wait)
  on_ack conf_data_wait rx_buff_full c =
      let (more, c') = advance_segments source (cancel_timer (toggle_write_fcb c)) in
      if more
      then (queue_confirmed source c', conf_user_data_transmit_wait)
      else (complete_send_operation true c', idle)
  on_ack p rx_buff_full c = (c, p)

  unfoldable pub on_nack : PriState → Bool → LinkContext S → LinkContext S × PriState
  unfolding failure post_status_callback reset_retry cancel_timer queue_reset_links fail_keep_alive
  on_nack reset_link_wait rx_buff_full c = failure c
  on_nack conf_data_wait rx_buff_full c =
      let c' = post_status_callback unreset c in
      if rx_buff_full
      then failure c'
      else (queue_reset_links (cancel_timer (reset_retry c')), link_reset_transmit_wait)
  on_nack request_link_status_wait rx_buff_full c = (fail_keep_alive false (cancel_timer c), idle)
  on_nack p rx_buff_full c = (c, p)

  unfoldable pub on_link_status : PriState → Bool → LinkContext S → LinkContext S × PriState
  unfolding failure cancel_timer complete_keep_alive
  on_link_status reset_link_wait rx_buff_full c = failure c
  on_link_status conf_data_wait rx_buff_full c = failure c
  on_link_status request_link_status_wait rx_buff_full c =
      (complete_keep_alive (cancel_timer c), idle)
  on_link_status p rx_buff_full c = (c, p)

  unfoldable pub on_not_supported : PriState → Bool → LinkContext S → LinkContext S × PriState
  unfolding failure cancel_timer fail_keep_alive
  on_not_supported reset_link_wait rx_buff_full c = failure c
  on_not_supported conf_data_wait rx_buff_full c = failure c
  on_not_supported request_link_status_wait rx_buff_full c =
      (fail_keep_alive false (cancel_timer c), idle)
  on_not_supported p rx_buff_full c = (c, p)

  unfoldable pub on_transmit_result : PriState → Bool → LinkContext S → LinkContext S × PriState
  unfolding advance_segments queue_unconfirmed complete_send_operation start_response_timer
      fail_keep_alive
  on_transmit_result send_unconfirmed_transmit_wait success c =
      let (more, c') = advance_segments source c in
      if more
      then (queue_unconfirmed source c', send_unconfirmed_transmit_wait)
      else (complete_send_operation success c', idle)
  on_transmit_result link_reset_transmit_wait success c =
      if success
      then (start_response_timer c, reset_link_wait)
      else (complete_send_operation success c, idle)
  on_transmit_result conf_user_data_transmit_wait success c =
      if success
      then (start_response_timer c, conf_data_wait)
      else (complete_send_operation false c, idle)
  on_transmit_result request_link_status_transmit_wait success c =
      if success
      then (start_response_timer c, request_link_status_wait)
      else (fail_keep_alive false c, idle)
  on_transmit_result p success c = (c, p)

  unfoldable pub on_timeout : PriState → LinkContext S → LinkContext S × PriState
  unfolding retry queue_reset_links complete_send_operation queue_confirmed post_status_callback
      fail_keep_alive
  on_timeout reset_link_wait c =
      let (again, c') = retry c in
      if again
      then (queue_reset_links c', link_reset_transmit_wait)
      else (complete_send_operation false c', idle)
  on_timeout conf_data_wait c =
      let (again, c') = retry c in
      if again
      then (queue_confirmed source c', conf_user_data_transmit_wait)
      else (complete_send_operation false (post_status_callback unreset c'), idle)
  on_timeout request_link_status_wait c = (fail_keep_alive true c, idle)
  on_timeout p c = (c, p)

module _ {S : Type 0} where
  unfoldable pub try_send_request_link_status : PriState → LinkContext S → LinkContext S × PriState
  unfolding queue_request_link_status emit
  try_send_request_link_status idle c = (
    emit keep_alive_initiated (queue_request_link_status (record c { keep_alive_timeout = false })),
    request_link_status_transmit_wait,
  )
  try_send_request_link_status p c = (c, p)
