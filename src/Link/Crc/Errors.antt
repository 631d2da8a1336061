-- ===== src/Link/Crc/Errors.antt =====
-- The errors that the checksum finds: any change of a single byte.
use dnp.Prelude.{
  ℕ, zero, suc, ◌+◌, ◌*◌, ◌/◌, ◌%◌, ◌^◌, ◌≤◌, ◌<◌, ◌≡◌, ◌≢◌, sym, ap, ◌∙◌, List, [], ◌∷◌, ◌++◌,
  arith, All, All-front, All-back, bit_xor, ◌⊎◌,
}
use dnp.Prelude.Bits.{xor_injective, xor-lt, xor_assoc, xor_comm}
use dnp.Link.Crc.Laws.{
  polynomial, bit_step, bit_steps, byte_step, remainder, low_xor_high, calc_crc-remainder,
}
use dnp.Link.Crc.{calc_crc}

-- Adding the polynomial sets the highest bit.
polynomial_high : (a : ℕ) → a < 2 ^ 15 → bit_xor a polynomial ≡ bit_xor a 0x26bc + 2 ^ 15
polynomial_high a h =
    ap (bit_xor a) (sym (low_xor_high 15 1 0x26bc (omega arith)))
    ∙ sym (xor_assoc a 0x26bc (1 * 2 ^ 15))
    ∙ low_xor_high 15 1 (bit_xor a 0x26bc) (xor-lt 15 a 0x26bc h (omega arith))

bit_step_cases :
    (x : ℕ)
    → x < 2 ^ 16
    → ((x % 2 ≡ 0) × (bit_step x ≡ x / 2) × (bit_step x < 2 ^ 15))
      ⊎ ((x % 2 ≡ 1)
          × (bit_step x ≡ bit_xor (x / 2) polynomial)
          × (2 ^ 15 ≤ bit_step x)
          × (bit_step x < 2 ^ 16))
unfolding bit_step
bit_step_cases x h = ground (arith, polynomial_high (x / 2) (omega arith), xor-lt 15 (x / 2) 0x26bc)

bit_step-lt : (x : ℕ) → x < 2 ^ 16 → bit_step x < 2 ^ 16
bit_step-lt x h = ground (arith, bit_step_cases x h)

bit_step_injective : (x y : ℕ) → x < 2 ^ 16 → y < 2 ^ 16 → bit_step x ≡ bit_step y → x ≡ y
bit_step_injective x y hx hy e =
    ground
      (arith, bit_step_cases x hx, bit_step_cases y hy, xor_injective (x / 2) (y / 2) polynomial)

bit_steps-lt : (k x : ℕ) → x < 2 ^ 16 → bit_steps k x < 2 ^ 16
unfolding bit_steps
bit_steps-lt zero x h = h
bit_steps-lt (suc k) x h = bit_steps-lt k (bit_step x) (bit_step-lt x h)

bit_steps_injective : (k x y : ℕ) → x < 2 ^ 16 → y < 2 ^ 16 → bit_steps k x ≡ bit_steps k y → x ≡ y
unfolding bit_steps
bit_steps_injective zero x y hx hy e = e
bit_steps_injective (suc k) x y hx hy e =
    bit_step_injective x y hx hy
      (bit_steps_injective k (bit_step x) (bit_step y) (bit_step-lt x hx) (bit_step-lt y hy) e)

module _ (c b : ℕ) (hc : c < 2 ^ 16) (hb : b < 256) where
  xor_byte-lt : bit_xor c b < 2 ^ 16
  xor_byte-lt = xor-lt 16 c b hc (omega arith)

  byte_step-lt : byte_step c b < 2 ^ 16
  unfolding byte_step
  byte_step-lt = bit_steps-lt 8 (bit_xor c b) xor_byte-lt

remainder-lt :
    (c : ℕ) (bytes : List ℕ) → c < 2 ^ 16 → All (λ b. b < 256) bytes → remainder c bytes < 2 ^ 16
unfolding remainder
remainder-lt c [] hc h = hc
remainder-lt c (b ∷ bytes) hc h = remainder-lt (byte_step c b) bytes (byte_step-lt c b hc h.0) h.1

remainder_injective :
    (c d : ℕ) (bytes : List ℕ)
    → c < 2 ^ 16
    → d < 2 ^ 16
    → All (λ b. b < 256) bytes
    → remainder c bytes ≡ remainder d bytes
    → c ≡ d
unfolding remainder byte_step
remainder_injective c d [] hc hd h e = e
remainder_injective c d (b ∷ bytes) hc hd h e = xor_injective c d b (
    bit_steps_injective 8 (bit_xor c b) (bit_xor d b) (xor_byte-lt c b hc h.0)
      (xor_byte-lt d b hd h.0)
      (remainder_injective (byte_step c b) (byte_step d b) bytes (byte_step-lt c b hc h.0)
        (byte_step-lt d b hd h.0) h.1 e))

byte_step_injective :
    (c a b : ℕ) → c < 2 ^ 16 → a < 256 → b < 256 → byte_step c a ≡ byte_step c b → a ≡ b
unfolding byte_step
byte_step_injective c a b hc ha hb e = xor_injective a b c (
    xor_comm a c
    ∙ bit_steps_injective 8 (bit_xor c a) (bit_xor c b) (xor_byte-lt c a hc ha)
        (xor_byte-lt c b hc hb) e
    ∙ xor_comm c b)

remainder_change :
    (c : ℕ) (before : List ℕ) (a b : ℕ) (behind : List ℕ)
    → c < 2 ^ 16
    → All (λ x. x < 256) before
    → a < 256
    → b < 256
    → All (λ x. x < 256) behind
    → remainder c (before ++ a ∷ behind) ≡ remainder c (before ++ b ∷ behind)
    → a ≡ b
unfolding remainder
remainder_change c [] a b behind hc hx ha hb hy e = byte_step_injective c a b hc ha hb (
    remainder_injective (byte_step c a) (byte_step c b) behind (byte_step-lt c a hc ha)
      (byte_step-lt c b hc hb) hy e)
remainder_change c (x ∷ before) a b behind hc hx ha hb hy e =
    remainder_change (byte_step c x) before a b behind (byte_step-lt c x hc hx.0) hx.1 ha hb hy e

-- The checksums of two messages of bytes that differ in exactly one place differ.
pub calc_crc-change :
    (before : List ℕ) (a b : ℕ) (behind : List ℕ)
    → All (λ x. x < 256) (before ++ a ∷ behind)
    → All (λ x. x < 256) (before ++ b ∷ behind)
    → a ≢ b
    → calc_crc (before ++ a ∷ behind) ≢ calc_crc (before ++ b ∷ behind)
calc_crc-change before a b behind ha hb ne e = ne (
    remainder_change 0 before a b behind (omega arith)
      (All-front (λ x. x < 256) before (a ∷ behind) ha)
      (All-back (λ x. x < 256) before (a ∷ behind) ha).0
      (All-back (λ x. x < 256) before (b ∷ behind) hb).0
      (All-back (λ x. x < 256) before (a ∷ behind) ha).1
      (omega (
        arith,
        e,
        calc_crc-remainder (before ++ a ∷ behind) ha,
        calc_crc-remainder (before ++ b ∷ behind) hb,
        remainder-lt 0 (before ++ a ∷ behind) (omega arith) ha,
        remainder-lt 0 (before ++ b ∷ behind) (omega arith) hb,
      )))
