-- ===== src/Openpal/SequenceNum.antt =====
-- cpp/libs/include/openpal/util/SequenceNum.h: a counter modulo a template parameter. The object is
-- the number it holds.
use dnp.Prelude.{ℕ, ◌+◌, ◌%◌, ◌<◌, arith}

-- `Next`
abbrev pub next : ℕ → ℕ → ℕ
next modulus seq = (seq + 1) % modulus

pub next-lt : (modulus seq : ℕ) → 0 < modulus → next modulus seq < modulus
next-lt modulus seq h = omega arith
