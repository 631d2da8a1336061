-- ===== src/Link/SecStates.antt =====
-- link/SecLinkLayerStates.h and SecLinkLayerStates.cpp: the secondary station. Each handler returns the
-- context and the state that its caller assigns to `pSecState`.
use dnp.Prelude.{ℕ, Bool, if◌then◌else◌, List, bool_eq}
use dnp.Link.Context.{
  SecState, not_reset, reset, transmit_wait_reset, transmit_wait_not_reset, LinkContext,
  reset_read_fcb, toggle_read_fcb, queue_ack, queue_link_status, push_data_up,
}

module _ {S : Type 0} where
  unfoldable pub on_reset_link_states : SecState → LinkContext S → LinkContext S × SecState
  unfolding queue_ack reset_read_fcb
  on_reset_link_states not_reset c = (reset_read_fcb (queue_ack c), transmit_wait_reset)
  on_reset_link_states reset c = (reset_read_fcb (queue_ack c), transmit_wait_reset)
  on_reset_link_states s c = (c, s)

  unfoldable pub on_request_link_status : SecState → LinkContext S → LinkContext S × SecState
  unfolding queue_link_status
  on_request_link_status not_reset c = (queue_link_status c, transmit_wait_not_reset)
  on_request_link_status reset c = (queue_link_status c, transmit_wait_reset)
  on_request_link_status s c = (c, s)

  unfoldable pub on_test_link_status : SecState → Bool → LinkContext S → LinkContext S × SecState
  unfolding queue_ack toggle_read_fcb
  on_test_link_status reset fcb c =
      if bool_eq c.next_read_fcb fcb
      then (toggle_read_fcb (queue_ack c), transmit_wait_reset)
      else (c, reset)
  on_test_link_status s fcb c = (c, s)

  unfoldable pub on_confirmed_user_data :
      SecState → Bool → List ℕ → LinkContext S → LinkContext S × SecState
  unfolding queue_ack toggle_read_fcb push_data_up
  on_confirmed_user_data reset fcb userdata c =
      let c' = queue_ack c in
      (
        if bool_eq c'.next_read_fcb fcb then push_data_up userdata (toggle_read_fcb c') else c',
        transmit_wait_reset,
      )
  on_confirmed_user_data s fcb userdata c = (c, s)

-- `OnTransmitResult`: `SLLS_TransmitWaitBase` ignores whether the reply was sent.
unfoldable pub sec_on_transmit_result : SecState → SecState
sec_on_transmit_result transmit_wait_reset = reset
sec_on_transmit_result transmit_wait_not_reset = not_reset
sec_on_transmit_result s = s
