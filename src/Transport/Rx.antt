-- ===== src/Transport/Rx.antt =====
-- TransportRx.h and TransportRx.cpp: the receiver, which joins segments into a fragment.
use dnp.Prelude.{
  ℕ, ◌+◌, ◌-◌, ◌%◌, ◌^◌, Bool, true, false, Option, List, [], ◌∷◌, if◌then◌else◌, ltb, ◌==◌, ◌!=◌,
  length, take, replicate, write_at,
}
use dnp.Openpal.SequenceNum.{next}
use dnp.Transport.Header.{
  StackStatistics, is_fir, is_fin, seq_of, seq_modulus, count_rx, count_error,
}

pub record TransportRx : Type 0 where
  pub rx_buffer : List ℕ
  pub num_bytes_read : ℕ
  pub sequence : ℕ
  pub statistics : Option StackStatistics

-- The constructor allocates `maxRxFragSize` bytes.
unfoldable pub new_rx : ℕ → Option StackStatistics → TransportRx
new_rx max_rx_frag_size statistics = record {
  rx_buffer = replicate max_rx_frag_size 0;
  num_bytes_read = 0;
  sequence = 0;
  statistics = statistics;
}

unfoldable pub clear_rx_buffer : TransportRx → TransportRx
clear_rx_buffer rx = record rx { num_bytes_read = 0 }

unfoldable pub reset : TransportRx → TransportRx
unfolding clear_rx_buffer
reset rx = clear_rx_buffer (record rx { sequence = 0 })

-- The size of `GetAvailable()`.
unfoldable pub available : TransportRx → ℕ
available rx = length rx.rx_buffer - rx.num_bytes_read

unfoldable pub validate_header : TransportRx → Bool → ℕ → TransportRx × Bool
validate_header rx fir seq =
    if fir
    then (record rx { sequence = seq; num_bytes_read = 0 }, true)
    else (if rx.num_bytes_read == 0
        then (rx, false)
        else (if seq != rx.sequence then (rx, false) else (rx, true)))

-- A segment that passed all validation: the end of `ProcessReceive`.
unfoldable pub accept_payload : TransportRx → Bool → List ℕ → TransportRx × List ℕ
unfolding clear_rx_buffer
accept_payload rx last payload =
    let rx' = record rx {
      statistics = count_rx rx.statistics;
      rx_buffer = write_at rx.num_bytes_read payload rx.rx_buffer;
      num_bytes_read = (rx.num_bytes_read + length payload) % 2 ^ 32;
      sequence = next seq_modulus rx.sequence;
    } in
    if last then (clear_rx_buffer rx', take rx'.num_bytes_read rx'.rx_buffer) else (rx', [])

unfoldable pub drop_with_error : TransportRx → TransportRx
drop_with_error rx = record rx { statistics = count_error rx.statistics }

-- The part of `ProcessReceive` behind the validation of the header.
unfoldable pub check_space : TransportRx → Bool → List ℕ → TransportRx × List ℕ
unfolding available clear_rx_buffer drop_with_error
check_space rx last payload =
    if ltb (available rx) (length payload)
    then (clear_rx_buffer (drop_with_error rx), [])
    else accept_payload rx last payload

-- The segments with a header: the slice returned is empty until a fragment is complete.
unfoldable pub receive_segment : TransportRx → ℕ → List ℕ → TransportRx × List ℕ
unfolding validate_header check_space drop_with_error
receive_segment rx hdr payload =
    let (rx', valid) = validate_header rx (is_fir hdr) (seq_of hdr) in
    if valid then check_space rx' (is_fin hdr) payload else (drop_with_error rx', [])

-- `ProcessReceive`
unfoldable pub process_receive : TransportRx → List ℕ → TransportRx × List ℕ
unfolding receive_segment drop_with_error
process_receive rx [] = (drop_with_error rx, [])
process_receive rx (hdr ∷ payload) = receive_segment rx hdr payload
