-- ===== src/Transport/Examples.antt =====
-- The transport layer's theorems at concrete inputs.
use dnp.Prelude.{◌+◌, ◌≤◌, ◌≡◌, refl, true, false, none, [], ◌∷◌, arith, length}
use dnp.Transport.Tx.{TransportTx, transport_tx_segment, configure}
use dnp.Transport.Rx.{TransportRx, process_receive}
use dnp.Transport.RoundTrip.{drain, receive_all, receive_all-drain}
use dnp.Transport.RxSpec.{IsValid, view, specify, process_receive-refines, process_receive-IsValid}
use dnp.Transport.Layer.{
  TransportLayer, begin_transmit, on_send_result, post_send_failure, upper_send_result,
}
use dnp.Transport.Sessions.{
  transmits, send_ends, run, sends, results, pending, run_account, empty_transmit_result,
}

abbrev rx4 : TransportRx
rx4 = record { rx_buffer = 0 ∷ 0 ∷ 0 ∷ 0 ∷ []; num_bytes_read = 2; sequence = 5; statistics = none }

abbrev tx63 : TransportTx
tx63 = record { apdu = []; tx_segment = none; statistics = none; sequence = 63; tpdu_count = 0 }

abbrev layer : TransportLayer
layer = record {
  is_online = true;
  is_sending = true;
  has_upper = true;
  has_link = true;
  receiver = rx4;
  transmitter = tx63;
}

rx4-IsValid : IsValid rx4
rx4-IsValid = record { within = omega arith; six_bits = omega arith; small = omega arith }

receive_all-drain_example :
    ((receive_all rx4 (drain transport_tx_segment 3 (configure (7 ∷ 8 ∷ 9 ∷ []) tx63))).1
      ≡ (7 ∷ 8 ∷ 9 ∷ []) ∷ [])
    × ((receive_all rx4
          (drain transport_tx_segment 3 (configure (7 ∷ 8 ∷ 9 ∷ []) tx63))).0.num_bytes_read
        ≡ 0)
    × (length
          (receive_all rx4
            (drain transport_tx_segment 3 (configure (7 ∷ 8 ∷ 9 ∷ []) tx63))).0.rx_buffer
        ≡ 4)
receive_all-drain_example =
    receive_all-drain tx63 rx4 (7 ∷ 8 ∷ 9 ∷ []) (omega arith) (omega arith) (omega arith)
      (omega arith)

process_receive-refines_example :
    (view (process_receive rx4 (0x85 ∷ 1 ∷ 2 ∷ [])).0, (process_receive rx4 (0x85 ∷ 1 ∷ 2 ∷ [])).1)
    ≡ specify 4 (view rx4) 0x85 (1 ∷ 2 ∷ [])
process_receive-refines_example =
    process_receive-refines rx4 0x85 (1 ∷ 2 ∷ []) (omega arith) rx4-IsValid

process_receive-IsValid_example :
    IsValid (process_receive rx4 (0x85 ∷ 1 ∷ [])).0
    × (length (process_receive rx4 (0x85 ∷ 1 ∷ [])).1 ≤ 4)
    × (length (process_receive rx4 (0x85 ∷ 1 ∷ [])).0.rx_buffer ≡ 4)
process_receive-IsValid_example =
    process_receive-IsValid rx4 (0x85 ∷ 1 ∷ []) (ground arith) rx4-IsValid

run_account_example :
    results (run layer (send_ends true ∷ transmits (1 ∷ []) ∷ [])).1
      + pending (run layer (send_ends true ∷ transmits (1 ∷ []) ∷ [])).0
    ≤ sends (run layer (send_ends true ∷ transmits (1 ∷ []) ∷ [])).1 + 1
run_account_example = run_account layer (send_ends true ∷ transmits (1 ∷ []) ∷ []) refl

empty_transmit_result_example :
    ((begin_transmit layer []).1 ≡ post_send_failure ∷ [])
    × ((on_send_result (begin_transmit layer []).0 false).1 ≡ upper_send_result false ∷ [])
    × ((on_send_result (on_send_result (begin_transmit layer []).0 false).0 true).2 ≡ false)
empty_transmit_result_example = empty_transmit_result layer true refl refl
