-- ===== src/Transport/Progress.antt =====
-- One segment of a transfer: what the transmitter sends and what the receiver then holds.
use dnp.Prelude.{
  ℕ, ◌+◌, ◌%◌, ◌^◌, ◌≤◌, ◌<◌, ◌≡◌, ◌≢◌, ap, ◌∙◌, ◌⊎◌, inl, inr, Bool, true, false, List, [], ◌∷◌,
  ◌++◌, arith, ◌==◌, length, take, drop, write_at, length-append, length-take, length-drop,
  take-write_at, length-write_at, none,
}
use dnp.Openpal.SequenceNum.{next}
use dnp.Transport.Header.{count_rx, seq_modulus, get_header, get_header_fields}
use dnp.Transport.Tx.{
  TransportTx, transport_tx_segment, get_segment, make_segment, advance, num_to_send,
}
use dnp.Transport.Rx.{TransportRx, accept_payload, process_receive}

receive_accepts :
    (rx : TransportRx) (sent payload : List ℕ) (fir fin : Bool) (s : ℕ)
    → s < 64
    → length sent + length payload ≤ length rx.rx_buffer
    → ((fir ≡ true) × (sent ≡ []))
      ⊎ ((fir ≡ false) × (sent ≢ []) × (rx.sequence ≡ s) × (rx.num_bytes_read ≡ length sent))
    → process_receive rx (get_header fir fin s ∷ payload)
      ≡ accept_payload (record rx { sequence = s; num_bytes_read = length sent }) fin payload
unfolding process_receive
receive_accepts rx sent payload fir fin s hs fits (inl (first, none_sent)) =
    ground (arith, get_header_fields fir fin s)
receive_accepts rx sent payload fir fin s hs fits (inr (later, some_sent, seq, num)) =
    ground (arith, get_header_fields fir fin s)

-- Where a transfer stands: `sent` bytes have been received, the rest is in the transmitter.
pub record Progress (tx : TransportTx) (rx : TransportRx) (sent : List ℕ) : Type 0 where
  pub no_segment : tx.tx_segment ≡ none
  pub more : 0 < length tx.apdu
  pub seq : tx.sequence < 64
  pub fits : length sent + length tx.apdu ≤ length rx.rx_buffer
  pub small : length rx.rx_buffer < 2 ^ 32
  pub agree :
      ((tx.tpdu_count ≡ 0) × (sent ≡ []))
      ⊎ ((0 < tx.tpdu_count)
          × (tx.tpdu_count ≤ length sent)
          × (rx.sequence ≡ tx.sequence)
          × (rx.num_bytes_read ≡ length sent))
  pub stored : take (length sent) rx.rx_buffer ≡ sent

-- The transmitter after the current segment.
unfoldable pub after : TransportTx → TransportTx
after tx = (advance (get_segment tx).1).1

-- The receiver once it has stored the current segment.
pub storing : TransportTx → TransportRx → List ℕ → TransportRx
storing tx rx sent = record rx {
  statistics = count_rx rx.statistics;
  rx_buffer = write_at (length sent) (take (num_to_send tx) tx.apdu) rx.rx_buffer;
  num_bytes_read = (length sent + length (take (num_to_send tx) tx.apdu)) % 2 ^ 32;
  sequence = next seq_modulus tx.sequence;
}

pub num_to_send-le : (tx : TransportTx) → num_to_send tx ≤ length tx.apdu
unfolding num_to_send
num_to_send-le tx = ground arith

pub num_to_send-pos : (tx : TransportTx) → 0 < length tx.apdu → 0 < num_to_send tx
unfolding num_to_send
num_to_send-pos tx h = ground arith

pub length-sent : (tx : TransportTx) → length (take (num_to_send tx) tx.apdu) ≡ num_to_send tx
length-sent tx = omega (arith, length-take (num_to_send tx) tx.apdu, num_to_send-le tx)

process-make_segment :
    (tx : TransportTx) (rx : TransportRx) (sent : List ℕ)
    → Progress tx rx sent
    → process_receive rx (make_segment tx)
      ≡ accept_payload
          (record rx { sequence = tx.sequence; num_bytes_read = length sent })
          (num_to_send tx == length tx.apdu)
          (take (num_to_send tx) tx.apdu)
unfolding make_segment
process-make_segment tx rx sent p =
    receive_accepts rx sent (take (num_to_send tx) tx.apdu) (tx.tpdu_count == 0)
      (num_to_send tx == length tx.apdu) tx.sequence p.seq
      (omega (arith, p.fits, length-sent tx, num_to_send-le tx)) (ground (arith, p.agree))

pub receive_more :
    (tx : TransportTx) (rx : TransportRx) (sent : List ℕ)
    → Progress tx rx sent
    → num_to_send tx < length tx.apdu
    → process_receive rx (make_segment tx) ≡ (storing tx rx sent, [])
unfolding storing accept_payload
receive_more tx rx sent p h = ground (arith, process-make_segment tx rx sent p)

pub receive_last :
    (tx : TransportTx) (rx : TransportRx) (sent : List ℕ)
    → Progress tx rx sent
    → num_to_send tx ≡ length tx.apdu
    → process_receive rx (make_segment tx) ≡ (
      record (storing tx rx sent) { num_bytes_read = 0 },
      take (storing tx rx sent).num_bytes_read (storing tx rx sent).rx_buffer,
    )
unfolding storing accept_payload
receive_last tx rx sent p h = ground (arith, process-make_segment tx rx sent p)

pub after_lem :
    (tx : TransportTx)
    → tx.tx_segment ≡ none
    → ((after tx).tx_segment ≡ none)
      × ((after tx).apdu ≡ drop (num_to_send tx) tx.apdu)
      × ((after tx).sequence ≡ next seq_modulus tx.sequence)
      × ((after tx).tpdu_count ≡ (tx.tpdu_count + 1) % 2 ^ 32)
unfolding after get_segment advance num_to_send
after_lem tx h = ground arith

-- What the receiver holds then.
pub stored_bytes :
    (tx : TransportTx) (rx : TransportRx) (sent : List ℕ)
    → Progress tx rx sent
    → take (length sent + num_to_send tx) (storing tx rx sent).rx_buffer
      ≡ sent ++ take (num_to_send tx) tx.apdu
unfolding storing
stored_bytes tx rx sent p =
    take-write_at (length sent) (length sent + num_to_send tx) (take (num_to_send tx) tx.apdu)
      rx.rx_buffer (omega (arith, length-sent tx)) (omega (arith, p.fits))
    ∙ ap (λ xs. xs ++ take (num_to_send tx) tx.apdu) p.stored

pub length-storing :
    (tx : TransportTx) (rx : TransportRx) (sent : List ℕ)
    → Progress tx rx sent
    → length (storing tx rx sent).rx_buffer ≡ length rx.rx_buffer
unfolding storing
length-storing tx rx sent p =
    length-write_at (length sent) (take (num_to_send tx) tx.apdu) rx.rx_buffer
      (omega (arith, p.fits, length-sent tx, num_to_send-le tx))

pub num_bytes-storing :
    (tx : TransportTx) (rx : TransportRx) (sent : List ℕ)
    → Progress tx rx sent
    → (storing tx rx sent).num_bytes_read ≡ length sent + num_to_send tx
unfolding storing
num_bytes-storing tx rx sent p = omega (arith, p.fits, p.small, length-sent tx, num_to_send-le tx)

-- A segment that is not the last moves its bytes over.
pub Progress-step :
    (tx : TransportTx) (rx : TransportRx) (sent : List ℕ)
    → Progress tx rx sent
    → num_to_send tx < length tx.apdu
    → Progress (after tx) (storing tx rx sent) (sent ++ take (num_to_send tx) tx.apdu)
Progress-step tx rx sent p h = record {
  no_segment = tx'.0;
  more = omega (arith, ap length tx'.1, length-drop (num_to_send tx) tx.apdu);
  seq = omega (arith, tx'.2);
  fits = omega (arith, ap length tx'.1, length-drop (num_to_send tx) tx.apdu, p.fits, total, size);
  small = omega (arith, size, p.small);
  agree = inr (
    omega
        (arith, tx'.3, total, count, p.fits, p.small, num_to_send-pos tx p.more, num_to_send-le tx),
    omega (arith, tx'.3, total, count, num_to_send-pos tx p.more),
    storing_seq,
    num,
  );
  stored = rw total (stored_bytes tx rx sent p);
}
  where
    tx' :
        ((after tx).tx_segment ≡ none)
        × ((after tx).apdu ≡ drop (num_to_send tx) tx.apdu)
        × ((after tx).sequence ≡ next seq_modulus tx.sequence)
        × ((after tx).tpdu_count ≡ (tx.tpdu_count + 1) % 2 ^ 32)
    tx' = after_lem tx p.no_segment

    size : length (storing tx rx sent).rx_buffer ≡ length rx.rx_buffer
    size = length-storing tx rx sent p

    total : length (sent ++ take (num_to_send tx) tx.apdu) ≡ length sent + num_to_send tx
    total = omega (arith, length-append sent (take (num_to_send tx) tx.apdu), length-sent tx)

    count : tx.tpdu_count ≤ length sent
    count = ground (arith, p.agree)

    num : (storing tx rx sent).num_bytes_read ≡ length (sent ++ take (num_to_send tx) tx.apdu)
    num = omega (arith, num_bytes-storing tx rx sent p, total)

    storing_seq : (storing tx rx sent).sequence ≡ (after tx).sequence
    storing_seq = unfold storing in omega (arith, tx'.2)
