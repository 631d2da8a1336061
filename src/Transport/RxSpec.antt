-- ===== src/Transport/RxSpec.antt =====
-- The receiver against a specification over the list of bytes held, and its invariant.
use dnp.Prelude.{
  ℕ, zero, suc, ◌+◌, ◌-◌, ◌%◌, ◌^◌, ◌≤◌, ◌<◌, ◌≡◌, refl, ap, Bool, true, false, List, [], ◌∷◌, ◌++◌,
  if◌then◌else◌, arith, ltb, lt→ltb, le→ltb, ne_of_same, ne_of_other, write_at, sym, ◌==◌, length,
  is_empty, take, All, inl, inr, lt_or_le, take-write_at, length-write_at, length-take,
  length-append, Bool-cases,
}
use dnp.Openpal.SequenceNum.{next}
use dnp.Transport.Header.{is_fir, is_fin, seq_of, seq_of-lt}
use dnp.Transport.Rx.{TransportRx, process_receive, accept_payload, check_space}

-- What holds of a receiver between two segments.
pub record IsValid (rx : TransportRx) : Type 0 where
  pub within : rx.num_bytes_read ≤ length rx.rx_buffer
  pub six_bits : rx.sequence < 64
  pub small : length rx.rx_buffer < 2 ^ 32

-- The abstract receiver: the bytes collected so far and the sequence number expected next.
pub record Collector : Type 0 where
  pub held : List ℕ
  pub expected : ℕ

pub view : TransportRx → Collector
view rx = record { held = take rx.num_bytes_read rx.rx_buffer; expected = rx.sequence }

-- A payload that continues `held`: too long and all is dropped, final and all is delivered.
collect : ℕ → List ℕ → ℕ → Bool → List ℕ → Collector × List ℕ
collect capacity held seq last payload =
    if ltb capacity (length (held ++ payload))
    then (record { held = []; expected = seq }, [])
    else (if last
        then (record { held = []; expected = next 64 seq }, held ++ payload)
        else (record { held = held ++ payload; expected = next 64 seq }, []))

-- The specification of a segment with a header.
pub specify : ℕ → Collector → ℕ → List ℕ → Collector × List ℕ
specify capacity c hdr payload =
    if is_fir hdr
    then collect capacity [] (seq_of hdr) (is_fin hdr) payload
    else (if is_empty c.held
        then (c, [])
        else (if seq_of hdr == c.expected
            then collect capacity c.held c.expected (is_fin hdr) payload
            else (c, [])))

stored_take :
    (rx : TransportRx) (payload : List ℕ)
    → IsValid rx
    → rx.num_bytes_read + length payload ≤ length rx.rx_buffer
    → take
        ((rx.num_bytes_read + length payload) % 2 ^ 32)
        (write_at rx.num_bytes_read payload rx.rx_buffer)
      ≡ take rx.num_bytes_read rx.rx_buffer ++ payload
stored_take rx payload v fits =
    take-write_at rx.num_bytes_read _ payload rx.rx_buffer (omega arith) v.within

length-held :
    (rx : TransportRx) (payload : List ℕ)
    → IsValid rx
    → length (take rx.num_bytes_read rx.rx_buffer ++ payload) ≡ rx.num_bytes_read + length payload
length-held rx payload v = omega (
  arith,
  length-append (take rx.num_bytes_read rx.rx_buffer) payload,
  length-take rx.num_bytes_read rx.rx_buffer,
)

collect-refines :
    (rx : TransportRx) (last : Bool) (payload : List ℕ)
    → IsValid rx
    → rx.num_bytes_read + length payload ≤ length rx.rx_buffer
    → let r = accept_payload rx last payload in
      (view r.0, r.1)
      ≡ collect (length rx.rx_buffer) (take rx.num_bytes_read rx.rx_buffer) rx.sequence last payload
unfolding accept_payload collect view
collect-refines rx true payload v fits = rw (
  le→ltb (length rx.rx_buffer) (length (take rx.num_bytes_read rx.rx_buffer ++ payload))
      (omega (arith, length-held rx payload v)),
  stored_take rx payload v fits,
)
collect-refines rx false payload v fits = rw (
  le→ltb (length rx.rx_buffer) (length (take rx.num_bytes_read rx.rx_buffer ++ payload))
      (omega (arith, length-held rx payload v)),
  stored_take rx payload v fits,
)

collect-overflows :
    (rx : TransportRx) (last : Bool) (payload : List ℕ)
    → IsValid rx
    → length rx.rx_buffer < rx.num_bytes_read + length payload
    → collect (length rx.rx_buffer) (take rx.num_bytes_read rx.rx_buffer) rx.sequence last payload
      ≡ (record { held = []; expected = rx.sequence }, [])
unfolding collect
collect-overflows rx last payload v over = rw (
    lt→ltb (length rx.rx_buffer) (length (take rx.num_bytes_read rx.rx_buffer ++ payload))
      (omega (arith, length-held rx payload v)))

check_space-refines :
    (rx : TransportRx) (last : Bool) (payload : List ℕ)
    → IsValid rx
    → (view (check_space rx last payload).0, (check_space rx last payload).1)
      ≡ collect (length rx.rx_buffer) (take rx.num_bytes_read rx.rx_buffer) rx.sequence last payload
unfolding check_space view
check_space-refines rx last payload v =
    elim (lt_or_le (length rx.rx_buffer) (rx.num_bytes_read + length payload)) [
      | inl over ↦
          rw
            (lt→ltb (length rx.rx_buffer - rx.num_bytes_read) (length payload)
              (omega (arith, v.within)))
            (sym (collect-overflows rx last payload v over))
      | inr fits ↦
          rw
            (le→ltb (length rx.rx_buffer - rx.num_bytes_read) (length payload)
              (omega (arith, v.within)))
            (collect-refines rx last payload v fits)
    ]

is_empty-take : (n : ℕ) (xs : List ℕ) → n ≤ length xs → is_empty (take n xs) ≡ (n == 0)
is_empty-take zero xs h = refl
is_empty-take (suc n) [] h = absurd (omega arith)
is_empty-take (suc n) (x ∷ xs) h = ground arith

-- A receiver that takes the segment's number on FIR.
restarted-IsValid :
    (rx : TransportRx) (hdr : ℕ)
    → hdr < 256
    → IsValid rx
    → IsValid (record rx { sequence = seq_of hdr; num_bytes_read = 0 })
restarted-IsValid rx hdr byte v = omega (arith, seq_of-lt hdr byte, v.within, v.small)

-- Every segment with a header byte does to the receiver what the specification says of the bytes
-- held and the number expected, and delivers the same fragment.
pub process_receive-refines :
    (rx : TransportRx) (hdr : ℕ) (payload : List ℕ)
    → hdr < 256
    → IsValid rx
    → (view (process_receive rx (hdr ∷ payload)).0, (process_receive rx (hdr ∷ payload)).1)
      ≡ specify (length rx.rx_buffer) (view rx) hdr payload
unfolding process_receive specify view
process_receive-refines rx hdr payload byte v = elim (Bool-cases (is_fir hdr)) [
  | inl fir ↦ rw fir (check_space-refines _ (is_fin hdr) payload (restarted-IsValid rx hdr byte v))
  | inr later ↦ elim (Bool-cases (rx.num_bytes_read == 0)) [
    | inl none_held ↦
        rw (later, is_empty-take rx.num_bytes_read rx.rx_buffer v.within, none_held) refl
    | inr held ↦ elim (Bool-cases (seq_of hdr == rx.sequence)) [
      | inl same ↦
          rw
            (
              later,
              is_empty-take rx.num_bytes_read rx.rx_buffer v.within,
              held,
              same,
              ne_of_same (seq_of hdr) rx.sequence same,
            )
            (check_space-refines rx (is_fin hdr) payload v)
      | inr other ↦
          rw
            (
              later,
              is_empty-take rx.num_bytes_read rx.rx_buffer v.within,
              held,
              other,
              ne_of_other (seq_of hdr) rx.sequence other,
            )
            refl
    ]
  ]
]

accept_payload-IsValid :
    (rx : TransportRx) (last : Bool) (payload : List ℕ)
    → IsValid rx
    → rx.num_bytes_read + length payload ≤ length rx.rx_buffer
    → let r = accept_payload rx last payload in
      IsValid r.0
      × (length r.1 ≤ length rx.rx_buffer)
      × (length r.0.rx_buffer ≡ length rx.rx_buffer)
unfolding accept_payload
accept_payload-IsValid rx true payload v fits = (
  record { within = omega arith; six_bits = omega arith; small = omega (arith, v.small, size) },
  omega (arith, ap length (stored_take rx payload v fits), length-held rx payload v),
  size,
)
  where
    size : length (write_at rx.num_bytes_read payload rx.rx_buffer) ≡ length rx.rx_buffer
    size = length-write_at rx.num_bytes_read payload rx.rx_buffer fits
accept_payload-IsValid rx false payload v fits = (
  record {
    within = omega (arith, size, v.small);
    six_bits = omega arith;
    small = omega (arith, v.small, size);
  },
  omega arith,
  size,
)
  where
    size : length (write_at rx.num_bytes_read payload rx.rx_buffer) ≡ length rx.rx_buffer
    size = length-write_at rx.num_bytes_read payload rx.rx_buffer fits

check_space-IsValid :
    (rx : TransportRx) (last : Bool) (payload : List ℕ)
    → IsValid rx
    → let r = check_space rx last payload in
      IsValid r.0
      × (length r.1 ≤ length rx.rx_buffer)
      × (length r.0.rx_buffer ≡ length rx.rx_buffer)
unfolding check_space
check_space-IsValid rx last payload v = ground (arith, accept_payload-IsValid rx last payload v)

-- Whatever segment arrives, the receiver keeps within its buffer, keeps the buffer's size and a
-- sequence number of six bits, and delivers no more bytes than the buffer holds.
pub process_receive-IsValid :
    (rx : TransportRx) (segment : List ℕ)
    → All (λ b. b < 256) segment
    → IsValid rx
    → let r = process_receive rx segment in
      IsValid r.0
      × (length r.1 ≤ length rx.rx_buffer)
      × (length r.0.rx_buffer ≡ length rx.rx_buffer)
unfolding process_receive
process_receive-IsValid rx [] bytes v = ground arith
process_receive-IsValid rx (hdr ∷ payload) bytes v = ground (
  arith,
  check_space-IsValid rx (is_fin hdr) payload v,
  check_space-IsValid _ (is_fin hdr) payload (restarted-IsValid rx hdr bytes.0 v),
)
