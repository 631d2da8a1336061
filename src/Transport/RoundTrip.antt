-- ===== src/Transport/RoundTrip.antt =====
-- What the transmitter cuts, the receiver joins.
use dnp.Prelude.{
  ℕ, zero, suc, ◌^◌, ◌≤◌, ◌<◌, ◌≡◌, refl, ap, ◌∙◌, inl, inr, false, not, List, [], ◌∷◌, ◌++◌,
  if◌then◌else◌, arith, length, is_empty, take, drop, length-append, length-drop, take-append-drop,
  take_all, drop_all, append_assoc, none, lt_or_le,
}
use dnp.Transport.Tx.{
  TransportTx, ITransportSegment, transport_tx_segment, configure, get_segment, make_segment,
  advance, num_to_send,
}
use dnp.Transport.Rx.{TransportRx, process_receive}
use dnp.Transport.Progress.{
  Progress, after, storing, num_to_send-le, num_to_send-pos, receive_more, receive_last, after_lem,
  stored_bytes, length-storing, num_bytes-storing, Progress-step,
}

-- The segments that a client of the interface reads until `Advance` answers false.
pub drain {ℓ} : {S : Type ℓ} → ITransportSegment S → ℕ → S → List (List ℕ)
drain src zero s = []
drain src (suc fuel) s =
    let (segment, s') = src.get_segment s in
    let (more, s'') = src.advance s' in
    let rest = drain src fuel s'' in segment ∷ (if more then rest else [])

-- The fragments that a receiver completes over a list of segments.
pub receive_all : TransportRx → List (List ℕ) → TransportRx × List (List ℕ)
receive_all rx [] = (rx, [])
receive_all rx (segment ∷ rest) =
    let (rx', out) = process_receive rx segment in
    let (rx'', outs) = receive_all rx' rest in (rx'', if is_empty out then outs else out ∷ outs)

drain-suc :
    (f : ℕ) (tx : TransportTx)
    → tx.tx_segment ≡ none
    → drain transport_tx_segment (suc f) tx
      ≡ make_segment tx
        ∷ (if not (is_empty (drop (num_to_send tx) tx.apdu))
            then drain transport_tx_segment f (after tx)
            else [])
unfolding drain after
drain-suc f tx h = rw (segment, more) refl
  where
    segment : (get_segment tx).0 ≡ make_segment tx
    segment = unfold get_segment in ground arith

    more : (advance (get_segment tx).1).0 ≡ not (is_empty (drop (num_to_send tx) tx.apdu))
    more = unfold get_segment advance num_to_send in ground arith

receive_all-none :
    (rx rx' : TransportRx) (segment : List ℕ) (rest : List (List ℕ))
    → process_receive rx segment ≡ (rx', [])
    → receive_all rx (segment ∷ rest) ≡ receive_all rx' rest
unfolding receive_all
receive_all-none rx rx' segment rest e = rw e

receive_all-some :
    (rx rx' : TransportRx) (segment out : List ℕ) (rest : List (List ℕ))
    → process_receive rx segment ≡ (rx', out)
    → is_empty out ≡ false
    → receive_all rx (segment ∷ rest) ≡ ((receive_all rx' rest).0, out ∷ (receive_all rx' rest).1)
unfolding receive_all
receive_all-some rx rx' segment out rest e filled = rw (e, filled)

-- The receiver's answer to the last segment is the whole fragment.
whole_fragment :
    (tx : TransportTx) (rx : TransportRx) (sent : List ℕ)
    → Progress tx rx sent
    → num_to_send tx ≡ length tx.apdu
    → take (storing tx rx sent).num_bytes_read (storing tx rx sent).rx_buffer ≡ sent ++ tx.apdu
whole_fragment tx rx sent p h =
    ap (λ n. take n (storing tx rx sent).rx_buffer) (num_bytes-storing tx rx sent p)
    ∙ stored_bytes tx rx sent p
    ∙ ap (◌++◌ sent) (take_all (num_to_send tx) tx.apdu (omega arith))

-- The next segments complete what the current one leaves open.
regroup :
    (tx : TransportTx) (sent : List ℕ)
    → tx.tx_segment ≡ none
    → (sent ++ take (num_to_send tx) tx.apdu) ++ (after tx).apdu ≡ sent ++ tx.apdu
regroup tx sent h =
    append_assoc sent (take (num_to_send tx) tx.apdu) (after tx).apdu
    ∙ ap (λ xs. sent ++ (take (num_to_send tx) tx.apdu ++ xs)) (after_lem tx h).1
    ∙ ap (◌++◌ sent) (take-append-drop (num_to_send tx) tx.apdu)

is_empty_length : (xs : List ℕ) → 0 < length xs → is_empty xs ≡ false
is_empty_length [] h = absurd (omega arith)
is_empty_length (x ∷ xs) h = refl

Reassembled : TransportTx → TransportRx → List ℕ → ℕ → Type 0
Reassembled tx rx sent fuel =
    (rx' : TransportRx) × (receive_all rx (drain transport_tx_segment fuel tx)
      ≡ (rx', (sent ++ tx.apdu) ∷ []))
    × (length rx'.rx_buffer ≡ length rx.rx_buffer)
    × (rx'.num_bytes_read ≡ 0)

reassemble_last :
    (fuel : ℕ) (tx : TransportTx) (rx : TransportRx) (sent : List ℕ)
    → Progress tx rx sent
    → num_to_send tx ≡ length tx.apdu
    → Reassembled tx rx sent (suc fuel)
unfolding Reassembled receive_all
reassemble_last fuel tx rx sent p h = (
  record (storing tx rx sent) { num_bytes_read = 0 },
  rw (drain-suc fuel tx p.no_segment, drop_all (num_to_send tx) tx.apdu (omega arith))
      (receive_all-some rx _ (make_segment tx) (sent ++ tx.apdu) []
        (rw (← whole_fragment tx rx sent p h) (receive_last tx rx sent p h))
        (is_empty_length (sent ++ tx.apdu) (omega (arith, length-append sent tx.apdu, p.more)))),
  length-storing tx rx sent p,
  refl,
)

reassemble_more :
    (fuel : ℕ) (tx : TransportTx) (rx : TransportRx) (sent : List ℕ)
    → Progress tx rx sent
    → num_to_send tx < length tx.apdu
    → Reassembled (after tx) (storing tx rx sent) (sent ++ take (num_to_send tx) tx.apdu) fuel
    → Reassembled tx rx sent (suc fuel)
unfolding Reassembled
reassemble_more fuel tx rx sent p h (rx', all, size, ready) = (
  rx',
  rw
      (
        drain-suc fuel tx p.no_segment,
        is_empty_length (drop (num_to_send tx) tx.apdu)
            (omega (arith, length-drop (num_to_send tx) tx.apdu)),
      )
      (receive_all-none rx _ (make_segment tx) _ (receive_more tx rx sent p h)
        ∙ all
        ∙ ap (λ xs. (rx', xs ∷ [])) (regroup tx sent p.no_segment)),
  size ∙ length-storing tx rx sent p,
  ready,
)

reassemble :
    (fuel : ℕ) (tx : TransportTx) (rx : TransportRx) (sent : List ℕ)
    → Progress tx rx sent
    → length tx.apdu ≤ fuel
    → Reassembled tx rx sent fuel
reassemble zero tx rx sent p h = absurd (omega (arith, p.more))
reassemble (suc fuel) tx rx sent p h =
    let ih =
      λ (q : Progress (after tx) (storing tx rx sent) (sent ++ take (num_to_send tx) tx.apdu))
          (le : length (after tx).apdu ≤ fuel).
        reassemble fuel (after tx) (storing tx rx sent) (sent ++ take (num_to_send tx) tx.apdu) q
          le in
    elim (lt_or_le (num_to_send tx) (length tx.apdu)) [
      | inl large ↦ reassemble_more fuel tx rx sent p large (
          ih (Progress-step tx rx sent p large) (
            omega (
              arith,
              ap length (after_lem tx p.no_segment).1,
              length-drop (num_to_send tx) tx.apdu,
              num_to_send-pos tx p.more,
            )))
      | inr small ↦ reassemble_last fuel tx rx sent p (omega (arith, num_to_send-le tx))
    ]

-- A non-empty fragment that fits the receiver's buffer, cut by a transmitter in any state and
-- received segment by segment by a receiver in any state (also in the middle of another fragment),
-- comes out exactly once and unchanged, after which the receiver holds no byte and its buffer has
-- kept its size.
pub receive_all-drain :
    (tx : TransportTx) (rx : TransportRx) (apdu : List ℕ)
    → 0 < length apdu
    → length apdu ≤ length rx.rx_buffer
    → length rx.rx_buffer < 2 ^ 32
    → tx.sequence < 64
    → let r = receive_all rx (drain transport_tx_segment (length apdu) (configure apdu tx)) in
      (r.1 ≡ apdu ∷ []) × (r.0.num_bytes_read ≡ 0) × (length r.0.rx_buffer ≡ length rx.rx_buffer)
unfolding configure Reassembled
receive_all-drain tx rx apdu some_bytes fits small seq =
    let (rx', all, size, ready) =
      reassemble (length apdu) (configure apdu tx) rx []
        (record {
          no_segment = refl;
          more = some_bytes;
          seq = seq;
          fits = omega arith;
          small = small;
          agree = inl (refl, refl);
          stored = refl;
        })
        (omega arith) in
    (
      ap (λ r. r.1) all,
      ap (λ r. r.0.num_bytes_read) all ∙ ready,
      ap (λ r. length r.0.rx_buffer) all ∙ size,
    )
