-- ===== src/Prelude/Bits.antt =====
-- Laws of `bit_xor` at variables, from the recursion on binary digits that it stands for.
use Prim.Native.Nat.{
  ℕ, zero, suc, ◌+◌, ◌*◌, ◌/◌, ◌%◌, ◌^◌, ◌≤◌, ◌<◌, bit_xor, bit_xor-bitwise, bitwise, digits,
  differ,
}
use mathlib.Core.Path.{◌≡◌, refl, ap, ◌∙◌, sym}
use native.Mathlib.Nat.{le_refl, pow-suc}
use native.Mathlib.Omega.{arith}

-- More fuel than the first number needs changes no digit.
digits_fuel :
    (rest : ℕ → ℕ) (op : ℕ → ℕ → ℕ) (left right : ℕ) (few many : ℕ)
    → left ≤ few
    → few ≤ many
    → digits rest op many left right ≡ digits rest op few left right
digits_fuel rest op zero right zero zero low le = refl
digits_fuel rest op zero right zero (suc many) low le = refl
digits_fuel rest op zero right (suc few) zero low le = refl
digits_fuel rest op zero right (suc few) (suc many) low le = refl
digits_fuel rest op (suc left) right zero many low le = absurd (omega arith)
digits_fuel rest op (suc left) right (suc few) zero low le = absurd (omega arith)
digits_fuel rest op (suc left) right (suc few) (suc many) low le =
    let behind = λ (l : suc left / 2 ≤ few) (k : few ≤ many).
      digits_fuel rest op (suc left / 2) (right / 2) few many l k in
    rw (behind (omega arith) (omega arith))

bitwise_step :
    (left right : ℕ)
    → bitwise (λ y. y) differ (suc left) right
      ≡ differ (suc left % 2) (right % 2) + 2 * bitwise (λ y. y) differ (suc left / 2) (right / 2)
bitwise_step left right = omega (
  arith,
  digits_fuel (λ y. y) differ (suc left / 2) (right / 2) (suc left / 2) left (omega arith)
      (omega arith),
)

bit_xor_step : (a b : ℕ) → bit_xor a b ≡ bit_xor (a / 2) (b / 2) * 2 + differ (a % 2) (b % 2)
bit_xor_step zero b = simp bit_xor-bitwise (omega arith)
bit_xor_step (suc a) b = simp bit_xor-bitwise (omega (arith, bitwise_step a b))

-- Half, and lowest digit.
pub xor_half : (a b : ℕ) → bit_xor a b / 2 ≡ bit_xor (a / 2) (b / 2)
xor_half a b =
    omega (arith, bit_xor_step a b, differ_bound (a % 2) (b % 2) (omega arith) (omega arith))
  where
    differ_bound : (x y : ℕ) → x < 2 → y < 2 → differ x y < 2
    differ_bound zero y p q = q
    differ_bound (suc zero) zero p q = omega arith
    differ_bound (suc zero) (suc zero) p q = omega arith
    differ_bound (suc zero) (suc (suc y)) p q = absurd (omega arith)
    differ_bound (suc (suc x)) y p q = absurd (omega arith)

differ_parity : (x y : ℕ) → x < 2 → y < 2 → differ x y ≡ (x + y) % 2
differ_parity zero zero p q = refl
differ_parity zero (suc zero) p q = refl
differ_parity zero (suc (suc y)) p q = absurd (omega arith)
differ_parity (suc zero) zero p q = refl
differ_parity (suc zero) (suc zero) p q = refl
differ_parity (suc zero) (suc (suc y)) p q = absurd (omega arith)
differ_parity (suc (suc x)) y p q = absurd (omega arith)

pub xor_parity : (a b : ℕ) → bit_xor a b % 2 ≡ (a + b) % 2
xor_parity a b =
    omega (arith, bit_xor_step a b, differ_parity (a % 2) (b % 2) (omega arith) (omega arith))

-- Two numbers with the same halves and the same parity are equal.
pub eq_of_digits : (a b : ℕ) → a / 2 ≡ b / 2 → a % 2 ≡ b % 2 → a ≡ b
eq_of_digits a b h p = omega arith

xor_comm_fuel : (n a b : ℕ) → a + b ≤ n → bit_xor a b ≡ bit_xor b a
xor_comm_fuel zero zero zero h = refl
xor_comm_fuel zero zero (suc b) h = absurd (omega arith)
xor_comm_fuel zero (suc a) b h = absurd (omega arith)
xor_comm_fuel (suc n) zero zero h = refl
xor_comm_fuel (suc n) zero (suc b) h =
    eq_of_digits _ _
      (xor_half zero (suc b)
        ∙ xor_comm_fuel n (zero / 2) (suc b / 2) (omega arith)
        ∙ sym (xor_half (suc b) zero))
      (omega (arith, xor_parity zero (suc b), xor_parity (suc b) zero))
xor_comm_fuel (suc n) (suc a) b h =
    eq_of_digits _ _
      (xor_half (suc a) b
        ∙ xor_comm_fuel n (suc a / 2) (b / 2) (omega arith)
        ∙ sym (xor_half b (suc a)))
      (omega (arith, xor_parity (suc a) b, xor_parity b (suc a)))

pub xor_comm : (a b : ℕ) → bit_xor a b ≡ bit_xor b a
xor_comm a b = xor_comm_fuel (a + b) a b (omega arith)

pub zero-xor : (b : ℕ) → bit_xor 0 b ≡ b
zero-xor b = simp bit_xor-bitwise

pub xor-zero : (a : ℕ) → bit_xor a 0 ≡ a
xor-zero a = xor_comm a 0 ∙ zero-xor a

module _ (a b c : ℕ) where
  half_left : bit_xor (bit_xor a b) c / 2 ≡ bit_xor (bit_xor (a / 2) (b / 2)) (c / 2)
  half_left = xor_half (bit_xor a b) c ∙ ap (λ x. bit_xor x (c / 2)) (xor_half a b)

  half_right : bit_xor a (bit_xor b c) / 2 ≡ bit_xor (a / 2) (bit_xor (b / 2) (c / 2))
  half_right = xor_half a (bit_xor b c) ∙ ap (λ x. bit_xor (a / 2) x) (xor_half b c)

  same_parity : bit_xor (bit_xor a b) c % 2 ≡ bit_xor a (bit_xor b c) % 2
  same_parity = omega (
    arith,
    xor_parity (bit_xor a b) c,
    xor_parity a b,
    xor_parity a (bit_xor b c),
    xor_parity b c,
  )

xor_assoc_fuel : (n a b c : ℕ) → a ≤ n → bit_xor (bit_xor a b) c ≡ bit_xor a (bit_xor b c)
xor_assoc_fuel n zero b c h = ap (λ x. bit_xor x c) (zero-xor b) ∙ sym (zero-xor (bit_xor b c))
xor_assoc_fuel zero (suc a) b c h = absurd (omega arith)
xor_assoc_fuel (suc n) (suc a) b c h =
    eq_of_digits _ _
      (half_left (suc a) b c
        ∙ xor_assoc_fuel n (suc a / 2) (b / 2) (c / 2) (omega arith)
        ∙ sym (half_right (suc a) b c))
      (same_parity (suc a) b c)

pub xor_assoc : (a b c : ℕ) → bit_xor (bit_xor a b) c ≡ bit_xor a (bit_xor b c)
xor_assoc a b c = xor_assoc_fuel a a b c (le_refl a)

xor_self_fuel : (n a : ℕ) → a ≤ n → bit_xor a a ≡ 0
xor_self_fuel n zero h = refl
xor_self_fuel zero (suc a) h = absurd (omega arith)
xor_self_fuel (suc n) (suc a) h = omega (
  arith,
  xor_half (suc a) (suc a),
  xor_parity (suc a) (suc a),
  xor_self_fuel n (suc a / 2) (omega arith),
)

pub xor_self : (a : ℕ) → bit_xor a a ≡ 0
xor_self a = xor_self_fuel a a (le_refl a)

pub xor_right_comm : (a b c : ℕ) → bit_xor (bit_xor a b) c ≡ bit_xor (bit_xor a c) b
xor_right_comm a b c = xor_assoc a b c ∙ ap (bit_xor a) (xor_comm b c) ∙ sym (xor_assoc a c b)

pub xor-xor_cancel : (a b : ℕ) → bit_xor (bit_xor a b) b ≡ a
xor-xor_cancel a b = xor_assoc a b b ∙ ap (bit_xor a) (xor_self b) ∙ xor-zero a

pub xor_injective : (a b c : ℕ) → bit_xor a c ≡ bit_xor b c → a ≡ b
xor_injective a b c e = sym (xor-xor_cancel a c) ∙ ap (λ x. bit_xor x c) e ∙ xor-xor_cancel b c

-- Digits beyond the lowest k are those of the numbers without them.
pub xor-lt : (k a b : ℕ) → a < 2 ^ k → b < 2 ^ k → bit_xor a b < 2 ^ k
xor-lt zero zero zero p q = omega arith
xor-lt zero zero (suc b) p q = absurd (omega arith)
xor-lt zero (suc a) b p q = absurd (omega arith)
xor-lt (suc k) a b p q = omega (
  arith,
  pow-suc 2 k,
  xor_half a b,
  xor-lt k (a / 2) (b / 2) (omega (arith, pow-suc 2 k)) (omega (arith, pow-suc 2 k)),
)

-- Eight halvings.
pub shr8 : ℕ → ℕ
shr8 a = a / 2 / 2 / 2 / 2 / 2 / 2 / 2 / 2

shr8_lem : (a : ℕ) → shr8 a ≡ a / 256
unfolding shr8
shr8_lem a = omega arith

xor-shr8 : (a b : ℕ) → shr8 (bit_xor a b) ≡ bit_xor (shr8 a) (shr8 b)
unfolding shr8
xor-shr8 a b = simp xor_half

pub xor_div_256 : (a b : ℕ) → bit_xor a b / 256 ≡ bit_xor (a / 256) (b / 256)
xor_div_256 a b =
    sym (shr8_lem (bit_xor a b))
    ∙ xor-shr8 a b
    ∙ ap (λ x. bit_xor x (shr8 b)) (shr8_lem a)
    ∙ ap (bit_xor (a / 256)) (shr8_lem b)
