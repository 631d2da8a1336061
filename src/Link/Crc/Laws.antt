-- ===== src/Link/Crc/Laws.antt =====
-- The table-driven loop against the division that it stands for, one bit at a time, and the errors
-- that the checksum finds.
use dnp.Prelude.{
  ℕ, zero, suc, ◌+◌, ◌-◌, ◌*◌, ◌/◌, ◌%◌, ◌^◌, ◌<◌, ◌≡◌, refl, sym, ap, ◌∙◌, Bool, true, List, [],
  ◌∷◌, arith, if◌then◌else◌, ltb, ◌==◌, ◌&&◌, Bool-cases, inl, inr, get_or, All, every_below,
  every_below_lem, bit_xor,
}
use dnp.Prelude.Bits.{
  xor_half, xor_parity, eq_of_digits, zero-xor, xor-zero, xor_right_comm, xor_div_256,
}
use native.Mathlib.Nat.{pow-suc}
use dnp.Link.Crc.Table.{crc_table}
use dnp.Link.Crc.{crc_loop, calc_crc}

-- x^16 + x^13 + x^12 + x^11 + x^10 + x^8 + x^6 + x^5 + x^2 + 1, with x^0 in the highest of 16 bits.
abbrev pub polynomial : ℕ
polynomial = 0xa6bc

-- One step of the division.
unfoldable pub bit_step : ℕ → ℕ
bit_step x = if x % 2 == 0 then x / 2 else bit_xor (x / 2) polynomial

unfoldable pub bit_steps : ℕ → ℕ → ℕ
bit_steps zero x = x
bit_steps (suc k) x = bit_steps k (bit_step x)

-- The remainder after a byte, and after all of them.
unfoldable pub byte_step : ℕ → ℕ → ℕ
byte_step crc b = bit_steps 8 (bit_xor crc b)

unfoldable pub remainder : ℕ → List ℕ → ℕ
remainder crc [] = crc
remainder crc (b ∷ bytes) = remainder (byte_step crc b) bytes

bit_step-xor_even : (a h : ℕ) → bit_step (bit_xor a (h * 2)) ≡ bit_xor (bit_step a) h
unfolding bit_step
bit_step-xor_even a h = elim (Bool-cases (a % 2 == 0)) [
  | inl even ↦ rw (parity, even) half
  | inr odd ↦
      rw (parity, odd) (ap (λ x. bit_xor x polynomial) half ∙ xor_right_comm (a / 2) h polynomial)
]
  where
    parity : bit_xor a (h * 2) % 2 ≡ a % 2
    parity = omega (arith, xor_parity a (h * 2))

    half : bit_xor a (h * 2) / 2 ≡ bit_xor (a / 2) h
    half = xor_half a (h * 2) ∙ ap (bit_xor (a / 2)) (omega arith)

times_pow : (h k : ℕ) → h * 2 ^ suc k ≡ h * 2 ^ k * 2
times_pow h k = ap (λ n. h * n) (pow-suc 2 k) ∙ omega arith

-- The high digits only move down.
bit_steps-xor_high : (k a h : ℕ) → bit_steps k (bit_xor a (h * 2 ^ k)) ≡ bit_xor (bit_steps k a) h
unfolding bit_steps
bit_steps-xor_high zero a h = ap (bit_xor a) (omega arith)
bit_steps-xor_high (suc k) a h =
    ap (bit_steps k)
      (ap (λ x. bit_step (bit_xor a x)) (times_pow h k) ∙ bit_step-xor_even a (h * 2 ^ k))
    ∙ bit_steps-xor_high k (bit_step a) h

table_row : ℕ → Bool
table_row i = bit_steps 8 i == get_or crc_table i 0 && ltb (get_or crc_table i 0) (2 ^ 16)

table_rows : every_below 256 table_row ≡ true
unfolding every_below table_row bit_steps bit_step
table_rows = refl

table_entry :
    (i : ℕ) → i < 256 → (get_or crc_table i 0 ≡ bit_steps 8 i) × (get_or crc_table i 0 < 2 ^ 16)
unfolding table_row
table_entry i h = ground (arith, every_below_lem 256 table_row i h table_rows)

-- A number is its low byte and the rest.
pub low_xor_high : (k x l : ℕ) → l < 2 ^ k → bit_xor l (x * 2 ^ k) ≡ l + x * 2 ^ k
low_xor_high zero x zero h = zero-xor (x * 1) ∙ omega arith
low_xor_high zero x (suc l) h = absurd (omega arith)
low_xor_high (suc k) x l h =
    eq_of_digits _ _
      (xor_half l (x * 2 ^ suc k)
        ∙ ap (bit_xor (l / 2)) (omega (arith, times_pow x k))
        ∙ low_xor_high k x (l / 2) (omega (arith, pow-suc 2 k))
        ∙ omega (arith, times_pow x k))
      (omega (arith, xor_parity l (x * 2 ^ suc k), times_pow x k))

-- The table does eight steps at once.
table_step : (x : ℕ) → bit_xor (get_or crc_table (x % 256) 0) (x / 256) ≡ bit_steps 8 x
table_step x =
    ap (λ t. bit_xor t (x / 256)) (table_entry (x % 256) (omega arith)).0
    ∙ sym (bit_steps-xor_high 8 (x % 256) (x / 256))
    ∙ ap (bit_steps 8) (low_xor_high 8 (x / 256) (x % 256) (omega arith) ∙ omega arith)

xor_byte_high : (crc b : ℕ) → b < 256 → bit_xor crc b / 256 ≡ crc / 256
xor_byte_high crc b h =
    xor_div_256 crc b ∙ ap (bit_xor (crc / 256)) (omega arith) ∙ xor-zero (crc / 256)

crc_loop-remainder :
    (crc : ℕ) (bytes : List ℕ) → All (λ b. b < 256) bytes → crc_loop crc bytes ≡ remainder crc bytes
unfolding crc_loop remainder byte_step
crc_loop-remainder crc [] h = refl
crc_loop-remainder crc (b ∷ bytes) h =
    ap (λ x. crc_loop x bytes)
      (ap (bit_xor (get_or crc_table (bit_xor crc b % 256) 0)) (sym (xor_byte_high crc b h.0))
        ∙ table_step (bit_xor crc b))
    ∙ crc_loop-remainder (bit_steps 8 (bit_xor crc b)) bytes h.1

-- The table-driven checksum of any bytes is the complement, in 16 bits, of the remainder of the
-- bitwise division by the polynomial, each byte taken from its lowest bit.
pub calc_crc-remainder :
    (bytes : List ℕ) → All (λ b. b < 256) bytes → calc_crc bytes ≡ 65535 - remainder 0 bytes
unfolding calc_crc
calc_crc-remainder bytes h = ap (◌-◌ 65535) (crc_loop-remainder 0 bytes h)
