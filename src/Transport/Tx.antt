-- ===== src/Transport/Tx.antt =====
-- TransportTx.h, TransportTx.cpp and link/ITransportSegment.h: the transmitter, which the link layer
-- drives through the interface of a source of segments. `tx_segment` is a slice of `tpduBuffer`,
-- which is written only while no segment is set, so the model keeps the slice's bytes.
use dnp.Prelude.{
  ℕ, ◌+◌, ◌%◌, ◌^◌, Bool, not, Option, none, some, List, [], ◌∷◌, if◌then◌else◌, ltb, ◌==◌, length,
  is_empty, take, drop,
}
use dnp.Openpal.SequenceNum.{next}
use dnp.Transport.Header.{StackStatistics, get_header, max_tpdu_payload, seq_modulus, count_tx}

-- ITransportSegment: each method that changes the object returns its new state.
pub record ITransportSegment {ℓ} (S : Type ℓ) : Type ℓ where
  pub has_value : S → Bool
  pub get_segment : S → List ℕ × S
  pub advance : S → Bool × S

pub record TransportTx : Type 0 where
  pub apdu : List ℕ
  pub tx_segment : Option (List ℕ)
  pub statistics : Option StackStatistics
  pub sequence : ℕ
  pub tpdu_count : ℕ

-- The constructor.
unfoldable pub new_tx : Option StackStatistics → TransportTx
new_tx statistics = record {
  apdu = [];
  tx_segment = none;
  statistics = statistics;
  sequence = 0;
  tpdu_count = 0;
}

-- `Configure`, which asserts that the output is not empty.
unfoldable pub configure : List ℕ → TransportTx → TransportTx
configure output tx = record tx { tx_segment = none; apdu = output; tpdu_count = 0 }

unfoldable pub has_value : TransportTx → Bool
has_value tx = ltb 0 (length tx.apdu)

-- The bytes of the next segment's payload: at most `MAX_TPDU_PAYLOAD`.
unfoldable pub num_to_send : TransportTx → ℕ
num_to_send tx = if ltb (length tx.apdu) max_tpdu_payload then length tx.apdu else max_tpdu_payload

-- The branch of `GetSegment` that builds a segment.
unfoldable pub make_segment : TransportTx → List ℕ
make_segment tx =
    get_header (tx.tpdu_count == 0) (num_to_send tx == length tx.apdu) tx.sequence
    ∷ take (num_to_send tx) tx.apdu

unfoldable pub get_segment : TransportTx → List ℕ × TransportTx
get_segment tx = elim tx.tx_segment [
  | some segment ↦ (segment, tx)
  | none ↦
      let segment = make_segment tx in
      (segment, record tx { statistics = count_tx tx.statistics; tx_segment = some segment })
]

unfoldable pub advance : TransportTx → Bool × TransportTx
advance tx =
    let rest = drop (num_to_send tx) tx.apdu in
    (
      not (is_empty rest),
      record tx {
        tx_segment = none;
        apdu = rest;
        tpdu_count = (tx.tpdu_count + 1) % 2 ^ 32;
        sequence = next seq_modulus tx.sequence;
      },
    )

-- The implementation of the interface.
instance abbrev pub transport_tx_segment : ITransportSegment TransportTx
transport_tx_segment = record {
  has_value = has_value;
  get_segment = get_segment;
  advance = advance;
}
