-- ===== src/Link/Buffer.antt =====
-- link/ShiftableBuffer.h and ShiftableBuffer.cpp: a buffer that is read from the front and written
-- behind. `bytes` is the memory that the facade stands over, and its length is `M_SIZE`.
use dnp.Prelude.{
  ℕ, zero, suc, ◌+◌, ◌-◌, Bool, true, false, List, if◌then◌else◌, ltb, ◌==◌, ◌&&◌, length, take,
  drop, get_or, write_at,
}

pub record ShiftableBuffer : Type 0 where
  pub bytes : List ℕ
  pub write_pos : ℕ
  pub read_pos : ℕ

-- The constructor.
unfoldable pub new_buffer : List ℕ → ShiftableBuffer
new_buffer bytes = record { bytes = bytes; write_pos = 0; read_pos = 0 }

abbrev pub num_bytes_read : ShiftableBuffer → ℕ
num_bytes_read b = b.write_pos - b.read_pos

-- `ReadBuffer`
abbrev pub read_buffer : ShiftableBuffer → List ℕ
read_buffer b = take (num_bytes_read b) (drop b.read_pos b.bytes)

abbrev pub num_write_bytes : ShiftableBuffer → ℕ
num_write_bytes b = length b.bytes - b.write_pos

-- `AdvanceRead` and `AdvanceWrite`, which assert that there are as many bytes to read or to write.
unfoldable pub advance_read : ℕ → ShiftableBuffer → ShiftableBuffer
advance_read n b = record b { read_pos = b.read_pos + n }

unfoldable pub advance_write : ℕ → ShiftableBuffer → ShiftableBuffer
advance_write n b = record b { write_pos = b.write_pos + n }

-- `Shift`: the unread bytes move to the front.
unfoldable pub shift : ShiftableBuffer → ShiftableBuffer
shift b = record b {
  bytes = write_at 0 (read_buffer b) b.bytes;
  read_pos = 0;
  write_pos = num_bytes_read b;
}

unfoldable pub reset : ShiftableBuffer → ShiftableBuffer
reset b = record b { write_pos = 0; read_pos = 0 }

-- `Sync`, with fuel: each round but the last drops a byte, so that the number of bytes is enough.
unfoldable pub sync_loop : ℕ → ShiftableBuffer → ShiftableBuffer × Bool
unfolding advance_read
sync_loop zero b = (b, false)
sync_loop (suc fuel) b =
    let rest = sync_loop fuel (advance_read 1 b) in
    if ltb 1 (num_bytes_read b)
    then (if get_or (read_buffer b) 0 0 == 0x05 && get_or (read_buffer b) 1 0 == 0x64
        then (b, true)
        else rest)
    else (b, false)

unfoldable pub sync : ShiftableBuffer → ShiftableBuffer × Bool
unfolding sync_loop
sync b = sync_loop (num_bytes_read b) b
