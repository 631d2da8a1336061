-- ===== src/Link/Layer/Safety.antt =====
-- The invariant of the link layer's state machines.
use dnp.Prelude.{ℕ, Bool, true, false, List, ◌≡◌, is_some, ◌||◌, arith}
use dnp.Transport.Tx.{ITransportSegment}
use dnp.Link.Context.{
  LinkContext, PriState, SecState, idle, not_reset, transmit_wait_reset, transmit_wait_not_reset,
  send_unconfirmed_transmit_wait, link_reset_transmit_wait, conf_user_data_transmit_wait,
  request_link_status_transmit_wait, reset_link_wait, conf_data_wait, request_link_status_wait,
  LinkTransmitMode, tx_idle, tx_primary, tx_secondary, tx_mode_is_primary, try_pending_pri,
  try_pending_sec,
}
use dnp.Link.PriStates.{
  on_ack, on_nack, on_link_status, on_not_supported, on_transmit_result, on_timeout,
}
use dnp.Link.SecStates.{
  on_reset_link_states, on_request_link_status, on_test_link_status, on_confirmed_user_data,
  sec_on_transmit_result,
}
use dnp.Link.Layer.{assign_pri, assign_sec, try_start_keep_alive, try_start_segments}

-- The primary station has a frame on its way to the router.
abbrev pub pri_sending : PriState → Bool
pri_sending send_unconfirmed_transmit_wait = true
pri_sending link_reset_transmit_wait = true
pri_sending conf_user_data_transmit_wait = true
pri_sending request_link_status_transmit_wait = true
pri_sending _ = false

-- The primary station waits for a reply.
abbrev pub pri_waiting : PriState → Bool
pri_waiting reset_link_wait = true
pri_waiting conf_data_wait = true
pri_waiting request_link_status_wait = true
pri_waiting _ = false

-- The primary station sends segments.
abbrev pub pri_with_segments : PriState → Bool
pri_with_segments send_unconfirmed_transmit_wait = true
pri_with_segments link_reset_transmit_wait = true
pri_with_segments conf_user_data_transmit_wait = true
pri_with_segments reset_link_wait = true
pri_with_segments conf_data_wait = true
pri_with_segments _ = false

-- The secondary station has a frame on its way to the router.
abbrev pub sec_sending : SecState → Bool
sec_sending transmit_wait_reset = true
sec_sending transmit_wait_not_reset = true
sec_sending _ = false

abbrev pub is_primary : LinkTransmitMode → Bool
is_primary m = tx_mode_is_primary m

abbrev pub is_secondary : LinkTransmitMode → Bool
is_secondary tx_secondary = true
is_secondary _ = false

abbrev pub pri_is_idle : PriState → Bool
pri_is_idle idle = true
pri_is_idle _ = false

-- Who sends, and what waits behind it.
pub record Sending (p : Bool) (s : Bool) (m : LinkTransmitMode) (pri sec : Bool) : Type 0 where
  pub primary : p ≡ (is_primary m || pri)
  pub secondary : s ≡ (is_secondary m || sec)
  pub pri_waits : pri ≡ true → m ≡ tx_secondary
  pub sec_waits : sec ≡ true → m ≡ tx_primary

-- The invariant, where `p` and `s` say which station has a frame on its way.
pub record Holding {S : Type 0} (p s : Bool) (c : LinkContext S) : Type 0 where
  pub sending : Sending p s c.tx_mode (is_some c.pending_pri_tx) (is_some c.pending_sec_tx)
  pub timer : c.rsp_timeout_timer ≡ pri_waiting c.pri_state
  pub segments_set : pri_with_segments c.pri_state ≡ true → c.has_segments ≡ true
  pub no_null : c.null_access ≡ false
  pub keep_alive : c.keep_alive_timer ≡ c.is_online
  pub offline_pri : c.is_online ≡ false → c.pri_state ≡ idle
  pub offline_sec : c.is_online ≡ false → c.sec_state ≡ not_reset
  pub offline_segments : c.is_online ≡ false → c.has_segments ≡ false
  pub offline_timeout : c.is_online ≡ false → c.keep_alive_timeout ≡ false

abbrev pub Consistent : {S : Type 0} → LinkContext S → Type 0
Consistent c = Holding (pri_sending c.pri_state) (sec_sending c.sec_state) c

module _ {S : Type 0} (source : ITransportSegment S) (c : LinkContext S) (k : Consistent c) where
  pub on_ack-Consistent :
      (p : PriState) (full : Bool)
      → c.pri_state ≡ p
      → Consistent (assign_pri (on_ack source p full c))
  unfolding on_ack
  on_ack-Consistent reset_link_wait full e = ground (arith, k, e)
  on_ack-Consistent conf_data_wait full e = ground (arith, k, e)
  on_ack-Consistent _ full e = ground (arith, k, e)

  pub on_nack-Consistent :
      (p : PriState) (full : Bool)
      → c.pri_state ≡ p
      → Consistent (assign_pri (on_nack source p full c))
  unfolding on_nack
  on_nack-Consistent reset_link_wait full e = ground (arith, k, e)
  on_nack-Consistent conf_data_wait full e = ground (arith, k, e)
  on_nack-Consistent request_link_status_wait full e = ground (arith, k, e)
  on_nack-Consistent _ full e = ground (arith, k, e)

  pub on_link_status-Consistent :
      (p : PriState) (full : Bool)
      → c.pri_state ≡ p
      → Consistent (assign_pri (on_link_status source p full c))
  unfolding on_link_status
  on_link_status-Consistent reset_link_wait full e = ground (arith, k, e)
  on_link_status-Consistent conf_data_wait full e = ground (arith, k, e)
  on_link_status-Consistent request_link_status_wait full e = ground (arith, k, e)
  on_link_status-Consistent _ full e = ground (arith, k, e)

  pub on_not_supported-Consistent :
      (p : PriState) (full : Bool)
      → c.pri_state ≡ p
      → Consistent (assign_pri (on_not_supported source p full c))
  unfolding on_not_supported
  on_not_supported-Consistent reset_link_wait full e = ground (arith, k, e)
  on_not_supported-Consistent conf_data_wait full e = ground (arith, k, e)
  on_not_supported-Consistent request_link_status_wait full e = ground (arith, k, e)
  on_not_supported-Consistent _ full e = ground (arith, k, e)

  -- The timer is cleared when it expires.
  pub on_timeout-Consistent :
      (p : PriState)
      → c.pri_state ≡ p
      → c.rsp_timeout_timer ≡ true
      → Consistent (assign_pri (on_timeout source p (record c { rsp_timeout_timer = false })))
  unfolding on_timeout
  on_timeout-Consistent reset_link_wait e t = ground (arith, k, e)
  on_timeout-Consistent conf_data_wait e t = ground (arith, k, e)
  on_timeout-Consistent request_link_status_wait e t = ground (arith, k, e)
  on_timeout-Consistent _ e t = ground (arith, k, e, t)

  pub try_start_keep_alive-Consistent :
      (p : PriState) → c.pri_state ≡ p → Consistent (try_start_keep_alive source c)
  unfolding try_start_keep_alive
  try_start_keep_alive-Consistent idle e = ground (arith, k, e)
  try_start_keep_alive-Consistent _ e = ground (arith, k, e)

  pub try_start_segments-Consistent :
      (p : PriState) → c.pri_state ≡ p → Consistent (try_start_segments source c)
  unfolding try_start_segments
  try_start_segments-Consistent idle e = ground (arith, k, e)
  try_start_segments-Consistent _ e = ground (arith, k, e)

  pub on_reset_link_states-Consistent :
      (s : SecState)
      → c.is_online ≡ true
      → c.sec_state ≡ s
      → Consistent (assign_sec (on_reset_link_states s c))
  unfolding on_reset_link_states
  on_reset_link_states-Consistent _ o e = ground (arith, k, e, o)

  pub on_request_link_status-Consistent :
      (s : SecState)
      → c.is_online ≡ true
      → c.sec_state ≡ s
      → Consistent (assign_sec (on_request_link_status s c))
  unfolding on_request_link_status
  on_request_link_status-Consistent _ o e = ground (arith, k, e, o)

  pub on_test_link_status-Consistent :
      (s : SecState) (fcb : Bool)
      → c.is_online ≡ true
      → c.sec_state ≡ s
      → Consistent (assign_sec (on_test_link_status s fcb c))
  unfolding on_test_link_status
  on_test_link_status-Consistent _ fcb o e = ground (arith, k, e, o)

  pub on_confirmed_user_data-Consistent :
      (s : SecState) (fcb : Bool) (userdata : List ℕ)
      → c.is_online ≡ true
      → c.sec_state ≡ s
      → Consistent (assign_sec (on_confirmed_user_data s fcb userdata c))
  unfolding on_confirmed_user_data
  on_confirmed_user_data-Consistent _ fcb userdata o e = ground (arith, k, e, o)

module _ {S : Type 0} (source : ITransportSegment S) (c : LinkContext S) where
  -- The frame on its way is gone, and those that wait are sent.
  abbrev pub freed : LinkContext S
  freed = try_pending_pri (try_pending_sec (record c { tx_mode = tx_idle }))

  pub freed_pri :
      Consistent c → c.tx_mode ≡ tx_primary → Holding false (sec_sending freed.sec_state) freed
  unfolding try_pending_pri try_pending_sec
  freed_pri k e = ground (arith, k, e)

  pub freed_pri-sending : Consistent c → c.tx_mode ≡ tx_primary → pri_sending freed.pri_state ≡ true
  unfolding try_pending_pri try_pending_sec
  freed_pri-sending k e = ground (arith, k, e)

  pub freed_sec :
      Consistent c → c.tx_mode ≡ tx_secondary → Holding (pri_sending freed.pri_state) false freed
  unfolding try_pending_pri try_pending_sec
  freed_sec k e = ground (arith, k, e)

  pub freed_sec-sending :
      Consistent c → c.tx_mode ≡ tx_secondary → sec_sending freed.sec_state ≡ true
  unfolding try_pending_pri try_pending_sec
  freed_sec-sending k e = ground (arith, k, e)

  pub on_transmit_result-Consistent :
      (p : PriState) (success : Bool)
      → Holding false (sec_sending c.sec_state) c
      → c.pri_state ≡ p
      → pri_sending p ≡ true
      → Consistent (assign_pri (on_transmit_result source p success c))
  unfolding on_transmit_result
  on_transmit_result-Consistent send_unconfirmed_transmit_wait success k e h = ground (arith, k, e)
  on_transmit_result-Consistent link_reset_transmit_wait success k e h = ground (arith, k, e)
  on_transmit_result-Consistent conf_user_data_transmit_wait success k e h = ground (arith, k, e)
  on_transmit_result-Consistent request_link_status_transmit_wait success k e h =
      ground (arith, k, e)
  on_transmit_result-Consistent _ success k e h = ground (arith, h)

  pub sec_on_transmit_result-Consistent :
      (s : SecState)
      → Holding (pri_sending c.pri_state) false c
      → c.sec_state ≡ s
      → sec_sending s ≡ true
      → Consistent (record c { sec_state = sec_on_transmit_result s })
  unfolding sec_on_transmit_result
  sec_on_transmit_result-Consistent _ k e h = ground (arith, k, e, h)
