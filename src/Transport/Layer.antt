-- ===== src/Transport/Layer.antt =====
-- TransportLayer.h and TransportLayer.cpp: the layer between the application and the link. A call of
-- a neighbour or of the executor is an action in the result, in the order in which they are made.
use dnp.Prelude.{ℕ, Bool, true, false, Option, List, [], ◌∷◌, if◌then◌else◌, is_empty, not, ◌&&◌}
use dnp.Transport.Header.{StackStatistics}
use dnp.Transport.Tx.{TransportTx, new_tx, configure}
use dnp.Transport.Rx.{TransportRx, new_rx, process_receive, reset}

pub data Action : Type 0 where
  upper_receive : List ℕ → Action
  upper_send_result : Bool → Action
  upper_layer_up upper_layer_down : Action
  -- `pLinkLayer->Send(transmitter)`
  link_send : TransportTx → Action
  -- `OnSendResult(false)` posted to the executor
  post_send_failure : Action

pub record TransportLayer : Type 0 where
  pub is_online : Bool
  pub is_sending : Bool
  -- whether `pUpperLayer` and `pLinkLayer` are set
  pub has_upper : Bool
  pub has_link : Bool
  pub receiver : TransportRx
  pub transmitter : TransportTx

-- The constructor.
unfoldable pub new_layer : ℕ → Option StackStatistics → TransportLayer
unfolding new_rx new_tx
new_layer max_rx_frag_size statistics = record {
  is_online = false;
  is_sending = false;
  has_upper = false;
  has_link = false;
  receiver = new_rx max_rx_frag_size statistics;
  transmitter = new_tx statistics;
}

-- `SetAppLayer` and `SetLinkLayer`, which assert that nothing was set before.
unfoldable pub set_app_layer : TransportLayer → TransportLayer
set_app_layer t = record t { has_upper = true }

unfoldable pub set_link_layer : TransportLayer → TransportLayer
set_link_layer t = record t { has_link = true }

unfoldable pub begin_transmit : TransportLayer → List ℕ → TransportLayer × List Action
unfolding configure
begin_transmit t apdu =
    if t.is_online
    then (if is_empty apdu
        then (t, post_send_failure ∷ [])
        else (if t.is_sending
            then (t, [])
            else (if t.has_link
                then (let tx = configure apdu t.transmitter in
                    (record t { is_sending = true; transmitter = tx }, link_send tx ∷ []))
                else (record t { is_sending = true }, post_send_failure ∷ []))))
    else (t, [])

unfoldable pub on_receive : TransportLayer → List ℕ → TransportLayer × List Action × Bool
on_receive t tpdu =
    if t.is_online
    then (let (rx, apdu) = process_receive t.receiver tpdu in
        (
          record t { receiver = rx },
          if not (is_empty apdu) && t.has_upper then upper_receive apdu ∷ [] else [],
          true,
        ))
    else (t, [], false)

unfoldable pub on_send_result : TransportLayer → Bool → TransportLayer × List Action × Bool
on_send_result t is_success =
    if not t.is_online
    then (t, [], false)
    else (if not t.is_sending then (t, [], false) else (
      record t { is_sending = false },
      if t.has_upper then upper_send_result is_success ∷ [] else [],
      true,
    ))

unfoldable pub on_lower_layer_up : TransportLayer → TransportLayer × List Action × Bool
on_lower_layer_up t =
    if t.is_online
    then (t, [], false)
    else (record t { is_online = true }, if t.has_upper then upper_layer_up ∷ [] else [], true)

unfoldable pub on_lower_layer_down : TransportLayer → TransportLayer × List Action × Bool
unfolding reset
on_lower_layer_down t = if not t.is_online then (t, [], true) else (
  record t { is_online = false; is_sending = false; receiver = reset t.receiver },
  if t.has_upper then upper_layer_down ∷ [] else [],
  true,
)
