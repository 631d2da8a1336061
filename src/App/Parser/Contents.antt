-- ===== src/App/Parser/Contents.antt =====
-- The bytes that the objects behind a count or a range are read from: BufferedCollection.h, the reads that the
-- parsers give it, and GetBit and GetDoubleBit of BitReader.cpp.
use dnp.Prelude.{
  ℕ, zero, suc, ◌+◌, ◌*◌, ◌/◌, ◌≤◌, Bool, true, false, ltb, ◌==◌, some, List, [], ◌∷◌, length, drop,
  ◌≡◌, refl, arith,
}
use dnp.App.Objects.{Shape, fixed, bits, double_bits, octets}
use dnp.App.Parser.{
  good, fail_if, Header, HeaderRecord, process, parse_objects, required_size, num_bytes_in_bits,
  num_bytes_in_double_bits, not_enough_data_for_objects, invalid_object,
}

-- `Foreach`: where the read at a position begins, when each read takes so many bytes off the slice.
unfoldable pub read_start : (taken position : ℕ) → ℕ
read_start taken zero = 0
read_start taken (suc position) = read_start taken position + taken

-- How many bytes a read of an object takes: its index and the object, or nothing of a field of bits.
unfoldable pub read_size : Shape → (bytes variation : ℕ) → ℕ
read_size (fixed size) bytes variation = bytes + size
read_size octets bytes variation = bytes + variation
read_size bits bytes variation = 0
read_size double_bits bytes variation = 0

-- The end of the bytes that the object at a position is read from.
unfoldable pub read_end : Shape → (bytes variation position : ℕ) → ℕ
read_end bits bytes variation position = position / 8 + 1
read_end double_bits bytes variation position = position / 4 + 1
read_end shape bytes variation position =
    read_start (read_size shape bytes variation) position + read_size shape bytes variation

-- The octet strings of a header have the size of its variation, which may not be zero.
unfoldable pub is_sizeless : Shape → (variation : ℕ) → Bool
is_sizeless octets variation = variation == 0
is_sizeless _ variation = false

read_start_lem : (taken position : ℕ) → read_start taken position ≡ position * taken
unfolding read_start
read_start_lem taken zero = omega arith
read_start_lem taken (suc position) = omega (arith, read_start_lem taken position)

required_size-read_end :
    (shape : Shape) (bytes last variation : ℕ)
    → required_size shape bytes (suc last) variation ≡ read_end shape bytes variation last
unfolding required_size read_end read_size num_bytes_in_bits num_bytes_in_double_bits
required_size-read_end (fixed size) bytes last variation =
    omega (arith, read_start_lem (bytes + size) last)
required_size-read_end octets bytes last variation =
    omega (arith, read_start_lem (bytes + variation) last)
required_size-read_end bits bytes last variation = ground arith
required_size-read_end double_bits bytes last variation = ground arith

read_start-le :
    (taken position last : ℕ) → position ≤ last → read_start taken position ≤ read_start taken last
unfolding read_start
read_start-le taken zero last h = omega arith
read_start-le taken (suc position) zero h = absurd (omega arith)
read_start-le taken (suc position) (suc last) h =
    omega (arith, read_start-le taken position last (omega arith))

read_end-le :
    (shape : Shape) (bytes variation position last : ℕ)
    → position ≤ last
    → read_end shape bytes variation position ≤ read_end shape bytes variation last
unfolding read_end
read_end-le bits bytes variation position last h = ground (arith, h)
read_end-le double_bits bytes variation position last h = ground (arith, h)
read_end-le (fixed size) bytes variation position last h =
    omega (arith, read_start-le (read_size (fixed size) bytes variation) position last h)
read_end-le octets bytes variation position last h =
    omega (arith, read_start-le (read_size octets bytes variation) position last h)

-- The objects behind a count or a range that is not zero are refused where the buffer ends before
-- the end of the bytes that the last of them is read from, and octet strings where they have no
-- size. Otherwise the handler receives one header with the whole buffer, the parser goes on right
-- behind the last object, and no object is read beyond it.
pub parse_objects-read_end :
    (shape : Shape) (bytes last : ℕ) (r : HeaderRecord) (header : List ℕ → Header) (buffer : List ℕ)
    → let end_of = read_end shape bytes r.variation in
      (parse_objects (some shape) bytes (suc last) r true header buffer
        ≡ fail_if (is_sizeless shape r.variation) invalid_object (
            fail_if
              (ltb (length buffer) (end_of last))
              not_enough_data_for_objects
              (good (header buffer ∷ []) (drop (end_of last) buffer))))
      × ((position : ℕ) → position ≤ last → end_of position ≤ end_of last)
unfolding parse_objects process is_sizeless fail_if
parse_objects-read_end octets bytes last r header buffer = (
  rw (required_size-read_end octets bytes last r.variation) refl,
  λ position h. read_end-le octets bytes r.variation position last h,
)
parse_objects-read_end (fixed size) bytes last r header buffer = (
  rw (required_size-read_end (fixed size) bytes last r.variation) refl,
  λ position h. read_end-le (fixed size) bytes r.variation position last h,
)
parse_objects-read_end bits bytes last r header buffer = (
  rw (required_size-read_end bits bytes last r.variation) refl,
  λ position h. read_end-le bits bytes r.variation position last h,
)
parse_objects-read_end double_bits bytes last r header buffer = (
  rw (required_size-read_end double_bits bytes last r.variation) refl,
  λ position h. read_end-le double_bits bytes r.variation position last h,
)
