-- ===== src/Transport/Header.antt =====
-- TransportConstants.h, StackStatistics.h and `TransportTx::GetHeader`: the header byte.
use dnp.Prelude.{
  bool_eq-true, ℕ, ◌+◌, ◌%◌, ◌^◌, ◌<◌, ◌≡◌, refl, Bool, true, false, Option, none, some, arith,
  if◌then◌else◌, ◌!=◌, ◌==◌, ltb, ltb→lt, ◌&&◌, bit_and, bit_or, bool_eq, every_below,
  every_below_lem,
}

abbrev pub tl_hdr_fin : ℕ
tl_hdr_fin = 0x80

abbrev pub tl_hdr_fir : ℕ
tl_hdr_fir = 0x40

abbrev pub tl_hdr_seq : ℕ
tl_hdr_seq = 0x3f

abbrev pub max_tpdu_payload : ℕ
max_tpdu_payload = 249

-- The modulus of `TransportSeqNum`.
abbrev pub seq_modulus : ℕ
seq_modulus = 64

-- Counters of type `uint32_t`, shared with the rest of the stack.
pub record StackStatistics : Type 0 where
  pub num_transport_rx : ℕ
  pub num_transport_tx : ℕ
  pub num_transport_error_rx : ℕ

abbrev u32 : ℕ → ℕ
u32 n = n % 2 ^ 32

-- `if (pStatistics) ++pStatistics->...`: the pointer may be null.
abbrev pub count_rx : Option StackStatistics → Option StackStatistics
count_rx none = none
count_rx (some s) = some (record s { num_transport_rx = u32 (s.num_transport_rx + 1) })

abbrev pub count_tx : Option StackStatistics → Option StackStatistics
count_tx none = none
count_tx (some s) = some (record s { num_transport_tx = u32 (s.num_transport_tx + 1) })

abbrev pub count_error : Option StackStatistics → Option StackStatistics
count_error none = none
count_error (some s) =
    some (record s { num_transport_error_rx = u32 (s.num_transport_error_rx + 1) })

-- `TransportTx::GetHeader`
unfoldable pub get_header : Bool → Bool → ℕ → ℕ
get_header fir fin sequence =
    let hdr : ℕ = 0 in
    let hdr1 = if fir then bit_or hdr tl_hdr_fir else hdr in
    let hdr2 = if fin then bit_or hdr1 tl_hdr_fin else hdr1 in
    bit_or hdr2 (bit_and tl_hdr_seq sequence)

-- The three fields as `ProcessReceive` reads them.
unfoldable pub is_fir : ℕ → Bool
is_fir hdr = bit_and hdr tl_hdr_fir != 0

unfoldable pub is_fin : ℕ → Bool
is_fin hdr = bit_and hdr tl_hdr_fin != 0

unfoldable pub seq_of : ℕ → ℕ
seq_of hdr = bit_and hdr tl_hdr_seq

header_table : Bool → Bool → ℕ → Bool
unfolding get_header is_fir is_fin seq_of
header_table fir fin s =
    bool_eq (is_fir (get_header fir fin s)) fir
    && (bool_eq (is_fin (get_header fir fin s)) fin && (seq_of (get_header fir fin s) == s))

header_table_holds : (fir fin : Bool) → every_below 64 (header_table fir fin) ≡ true
unfolding every_below header_table
header_table_holds true true = refl
header_table_holds true false = refl
header_table_holds false true = refl
header_table_holds false false = refl

-- The receiver reads back the header that the sender wrote.
pub get_header_fields :
    (fir fin : Bool) (s : ℕ)
    → s < 64
    → (is_fir (get_header fir fin s) ≡ fir)
      × (is_fin (get_header fir fin s) ≡ fin)
      × (seq_of (get_header fir fin s) ≡ s)
unfolding header_table
get_header_fields fir fin s h = parts
  where
    row : header_table fir fin s ≡ true
    row = every_below_lem 64 (header_table fir fin) s h (header_table_holds fir fin)

    parts :
        (is_fir (get_header fir fin s) ≡ fir)
        × (is_fin (get_header fir fin s) ≡ fin)
        × (seq_of (get_header fir fin s) ≡ s)
    parts = ground (
      arith,
      row,
      bool_eq-true (is_fir (get_header fir fin s)) fir,
      bool_eq-true (is_fin (get_header fir fin s)) fin,
    )

seq_table : every_below 256 (λ h. ltb (seq_of h) 64) ≡ true
unfolding every_below seq_of
seq_table = refl

-- A byte's sequence field has six bits.
pub seq_of-lt : (h : ℕ) → h < 256 → seq_of h < 64
seq_of-lt h b = ltb→lt _ _ (every_below_lem 256 (λ h. ltb (seq_of h) 64) h b seq_table)
