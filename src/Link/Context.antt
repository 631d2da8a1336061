-- ===== src/Link/Context.antt =====
-- link/LinkContext.h, LinkContext.cpp and link/LinkConfig.h: the state that the primary and the secondary
-- station share. What the layer asks of its neighbours is put in front of `output`, so that the last
-- request comes first; their calls back into the layer are later calls. `segments` is the object that
-- `pSegments` leads to and `has_segments` whether it is set: an access through the null pointer sets
-- `null_access`. A frame that waits stands in a static buffer, and the model keeps its bytes. The time of
-- the response timer (`Timeout` of the configuration) is not kept, since its expiry is an event.
use dnp.Prelude.{
  ℕ, zero, suc, Bool, true, false, not, Option, none, some, List, [], ◌∷◌, if◌then◌else◌, bool_eq,
  ◌==◌,
}
use dnp.Link.Frame.{
  format_ack, format_link_status, format_reset_link_states, format_request_link_status,
  format_confirmed_user_data, format_unconfirmed_user_data,
}
use dnp.Transport.Tx.{ITransportSegment}

pub record LinkConfig : Type 0 where
  pub is_master : Bool
  pub use_confirms : Bool
  pub num_retry : ℕ
  pub local_addr : ℕ
  pub remote_addr : ℕ
  pub keep_alive_timeout : ℕ

pub data LinkTransmitMode : Type 0 where
  tx_idle tx_primary tx_secondary : LinkTransmitMode

pub data LinkStatus : Type 0 where
  unreset is_reset : LinkStatus

-- The states of PriLinkLayerStates.h.
pub data PriState : Type 0 where
  idle send_unconfirmed_transmit_wait link_reset_transmit_wait : PriState
  conf_user_data_transmit_wait request_link_status_transmit_wait : PriState
  reset_link_wait conf_data_wait request_link_status_wait : PriState

-- The states of SecLinkLayerStates.h.
pub data SecState : Type 0 where
  not_reset reset transmit_wait_reset transmit_wait_not_reset : SecState

pub data Action : Type 0 where
  router_begin_transmit : List ℕ → Action
  upper_receive : List ℕ → Action
  upper_layer_up upper_layer_down : Action
  -- posted to the executor
  post_send_result : Bool → Action
  post_status : LinkStatus → Action
  keep_alive_initiated keep_alive_failure keep_alive_success : Action

pub record LinkContext (S : Type 0) : Type 0 where
  pub config : LinkConfig
  pub pending_pri_tx : Option (List ℕ)
  pub pending_sec_tx : Option (List ℕ)
  pub segments : S
  pub has_segments : Bool
  pub null_access : Bool
  pub tx_mode : LinkTransmitMode
  pub num_retry_remaining : ℕ
  pub rsp_timeout_timer : Bool
  pub keep_alive_timer : Bool
  pub next_read_fcb : Bool
  pub next_write_fcb : Bool
  pub is_online : Bool
  pub is_remote_reset : Bool
  pub keep_alive_timeout : Bool
  pub last_message_timestamp : ℕ
  pub pri_state : PriState
  pub sec_state : SecState
  pub output : List Action

-- The constructor; `s` is any object.
unfoldable pub new_context : {S : Type 0} → LinkConfig → ℕ → S → LinkContext S
new_context config now s = record {
  config = config;
  pending_pri_tx = none;
  pending_sec_tx = none;
  segments = s;
  has_segments = false;
  null_access = false;
  tx_mode = tx_idle;
  num_retry_remaining = 0;
  rsp_timeout_timer = false;
  keep_alive_timer = false;
  next_read_fcb = false;
  next_write_fcb = false;
  is_online = false;
  is_remote_reset = false;
  keep_alive_timeout = false;
  last_message_timestamp = now;
  pri_state = idle;
  sec_state = not_reset;
  output = [];
}

-- Both stations' tests of the transmit mode.
abbrev pub tx_mode_is_idle : LinkTransmitMode → Bool
tx_mode_is_idle tx_idle = true
tx_mode_is_idle _ = false

abbrev pub tx_mode_is_primary : LinkTransmitMode → Bool
tx_mode_is_primary tx_primary = true
tx_mode_is_primary _ = false

abbrev pub tx_mode_of : Bool → LinkTransmitMode
tx_mode_of true = tx_primary
tx_mode_of false = tx_secondary

module _ {S : Type 0} where
  unfoldable pub emit : Action → LinkContext S → LinkContext S
  emit a c = record c { output = a ∷ c.output }

  -- `ResetReadFCB`, `ResetWriteFCB`, `ToggleReadFCB` and `ToggleWriteFCB`
  unfoldable pub reset_read_fcb : LinkContext S → LinkContext S
  reset_read_fcb c = record c { next_read_fcb = true }

  unfoldable pub reset_write_fcb : LinkContext S → LinkContext S
  reset_write_fcb c = record c { next_write_fcb = true }

  unfoldable pub toggle_read_fcb : LinkContext S → LinkContext S
  toggle_read_fcb c = record c { next_read_fcb = not c.next_read_fcb }

  unfoldable pub toggle_write_fcb : LinkContext S → LinkContext S
  toggle_write_fcb c = record c { next_write_fcb = not c.next_write_fcb }

  -- `QueueTransmit`
  unfoldable pub queue_transmit : List ℕ → Bool → LinkContext S → LinkContext S
  unfolding emit
  queue_transmit buffer primary c =
      if tx_mode_is_idle c.tx_mode
      then emit (router_begin_transmit buffer) (record c { tx_mode = tx_mode_of primary })
      else (if primary
          then record c { pending_pri_tx = some buffer }
          else record c { pending_sec_tx = some buffer })

  unfoldable pub queue_ack : LinkContext S → LinkContext S
  unfolding queue_transmit
  queue_ack c =
      queue_transmit (format_ack c.config.is_master false c.config.remote_addr c.config.local_addr)
        false c

  unfoldable pub queue_link_status : LinkContext S → LinkContext S
  unfolding queue_transmit
  queue_link_status c =
      queue_transmit
        (format_link_status c.config.is_master false c.config.remote_addr c.config.local_addr) false
        c

  unfoldable pub queue_reset_links : LinkContext S → LinkContext S
  unfolding queue_transmit
  queue_reset_links c =
      queue_transmit
        (format_reset_link_states c.config.is_master c.config.remote_addr c.config.local_addr) true
        c

  unfoldable pub queue_request_link_status : LinkContext S → LinkContext S
  unfolding queue_transmit
  queue_request_link_status c =
      queue_transmit
        (format_request_link_status c.config.is_master c.config.remote_addr c.config.local_addr)
        true c

  -- `ResetRetry` and `Retry`
  unfoldable pub reset_retry : LinkContext S → LinkContext S
  reset_retry c = record c { num_retry_remaining = c.config.num_retry }

  unfoldable pub retry : LinkContext S → Bool × LinkContext S
  retry c = elim c.num_retry_remaining [
    | zero ↦ (false, c)
    | suc n ↦ (true, record c { num_retry_remaining = n })
  ]

  -- `PushDataUp` and `PostStatusCallback`; `pUpperLayer` is always set.
  unfoldable pub push_data_up : List ℕ → LinkContext S → LinkContext S
  unfolding emit
  push_data_up userdata c = emit (upper_receive userdata) c

  unfoldable pub post_status_callback : LinkStatus → LinkContext S → LinkContext S
  unfolding emit
  post_status_callback status c = emit (post_status status) c

  unfoldable pub complete_send_operation : Bool → LinkContext S → LinkContext S
  unfolding emit
  complete_send_operation success c =
      emit (post_send_result success) (record c { has_segments = false })

  -- `TimerRef::Start`, which does nothing while the timer is active, and `TimerRef::Cancel`.
  unfoldable pub start_response_timer : LinkContext S → LinkContext S
  start_response_timer c = record c { rsp_timeout_timer = true }

  unfoldable pub start_keep_alive_timer : LinkContext S → LinkContext S
  start_keep_alive_timer c = record c { keep_alive_timer = true }

  unfoldable pub cancel_timer : LinkContext S → LinkContext S
  cancel_timer c = record c { rsp_timeout_timer = false }

  unfoldable pub fail_keep_alive : Bool → LinkContext S → LinkContext S
  unfolding emit
  fail_keep_alive timeout c = if timeout then emit keep_alive_failure c else c

  unfoldable pub complete_keep_alive : LinkContext S → LinkContext S
  unfolding emit
  complete_keep_alive c = emit keep_alive_success c

  -- `SetTxSegment`
  unfoldable pub set_tx_segment : S → LinkContext S → LinkContext S × Bool
  set_tx_segment s c =
      if not c.is_online
      then (c, false)
      else (if c.has_segments
          then (c, false)
          else (record c { segments = s; has_segments = true }, true))

  -- `TryPendingTx` of either station's frame.
  unfoldable pub try_pending_sec : LinkContext S → LinkContext S
  unfolding emit
  try_pending_sec c = elim c.pending_sec_tx [
    | none ↦ c
    | some frame ↦
        if tx_mode_is_idle c.tx_mode
        then emit (router_begin_transmit frame)
            (record c { pending_sec_tx = none; tx_mode = tx_secondary })
        else c
  ]

  unfoldable pub try_pending_pri : LinkContext S → LinkContext S
  unfolding emit
  try_pending_pri c = elim c.pending_pri_tx [
    | none ↦ c
    | some frame ↦
        if tx_mode_is_idle c.tx_mode
        then emit (router_begin_transmit frame)
            (record c { pending_pri_tx = none; tx_mode = tx_primary })
        else c
  ]

  -- `Validate`
  unfoldable pub validate : Bool → ℕ → ℕ → LinkContext S → Bool
  validate is_master src dest c =
      if bool_eq is_master c.config.is_master
      then false
      else (if not (dest == c.config.local_addr)
          then false
          else (if not (src == c.config.remote_addr) then false else true))

  -- `pSegments->GetSegment()` and `pSegments->Advance()`
  unfoldable pub segment_of : ITransportSegment S → LinkContext S → List ℕ × LinkContext S
  segment_of source c =
      let (segment, s) = source.get_segment c.segments in
      (
        segment,
        record c { segments = s; null_access = if c.has_segments then c.null_access else true },
      )

  unfoldable pub advance_segments : ITransportSegment S → LinkContext S → Bool × LinkContext S
  advance_segments source c =
      let (more, s) = source.advance c.segments in
      (
        more,
        record c { segments = s; null_access = if c.has_segments then c.null_access else true },
      )

  -- A segment is formatted and queued: `FormatPrimaryBufferWithConfirmed` with the next FCB, and
  -- `FormatPrimaryBufferWithUnconfirmed`.
  unfoldable pub queue_confirmed : ITransportSegment S → LinkContext S → LinkContext S
  unfolding segment_of queue_transmit
  queue_confirmed source c =
      let (segment, c') = segment_of source c in
      queue_transmit
        (format_confirmed_user_data c'.config.is_master c'.next_write_fcb c'.config.remote_addr
          c'.config.local_addr segment)
        true c'

  unfoldable pub queue_unconfirmed : ITransportSegment S → LinkContext S → LinkContext S
  unfolding segment_of queue_transmit
  queue_unconfirmed source c =
      let (segment, c') = segment_of source c in
      queue_transmit
        (format_unconfirmed_user_data c'.config.is_master c'.config.remote_addr c'.config.local_addr
          segment)
        true c'
