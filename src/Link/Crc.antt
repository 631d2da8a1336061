-- ===== src/Link/Crc.antt =====
-- link/CRC.h and CRC.cpp: the checksum of the DNP3 link layer. A pointer with a length is the list
-- of the bytes.
pub mod Table
pub mod Laws
pub mod Errors
use dnp.Prelude.{
  ℕ, ◌+◌, ◌-◌, ◌/◌, ◌%◌, ◌<◌, ◌≡◌, Bool, List, [], ◌∷◌, ◌==◌, get_or, length, take, bit_xor,
}
use dnp.Openpal.Serialization.{read_u16, write_u16}
use Table.{crc_table}

-- The loop of `CalcCrc`, from the remainder so far.
unfoldable pub crc_loop : ℕ → List ℕ → ℕ
crc_loop crc [] = crc
crc_loop crc (b ∷ bytes) =
    crc_loop (bit_xor (get_or crc_table (bit_xor crc b % 256) 0) (crc / 256)) bytes

-- `CalcCrc`: `~CRC` of a `uint16_t`.
unfoldable pub calc_crc : List ℕ → ℕ
unfolding crc_loop
calc_crc bytes = 65535 - crc_loop 0 bytes

-- The bytes that `AddCrc` stores behind the input.
unfoldable pub add_crc : List ℕ → List ℕ
add_crc input = write_u16 (calc_crc input)

-- `IsCorrectCRC` of the first `n` bytes of a buffer, against the word behind them.
unfoldable pub is_correct_crc : List ℕ → ℕ → Bool
is_correct_crc input n = calc_crc (take n input) == read_u16 input n
