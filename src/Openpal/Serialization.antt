-- ===== src/Openpal/Serialization.antt =====
-- cpp/libs/include/openpal/serialization/SerializationTemplatesLE.h: `Bit16LE<uint16_t>`, the
-- type that the link layer writes its addresses and its checksums with.
use dnp.Prelude.{ℕ, ◌+◌, ◌*◌, ◌/◌, ◌%◌, ◌<◌, ◌≡◌, List, [], ◌∷◌, arith, get_or}

-- `UInt16::Read` at a pointer into the bytes: the two bytes do not overlap, so `|` is a sum.
abbrev pub read_u16 : List ℕ → ℕ → ℕ
read_u16 bytes i = get_or bytes i 0 + get_or bytes (i + 1) 0 * 256

-- `UInt16::Write`, as the bytes that it stores.
abbrev pub write_u16 : ℕ → List ℕ
write_u16 value = value % 256 ∷ value / 256 % 256 ∷ []

-- A written word is read back.
pub read-write_u16 : (v : ℕ) → v < 65536 → v % 256 + v / 256 % 256 * 256 ≡ v
read-write_u16 v h = omega arith
