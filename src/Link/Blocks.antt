-- ===== src/Link/Blocks.antt =====
-- User data written in blocks is validated and read back, also when the data moves within one buffer.
use dnp.Prelude.{
  ℕ, zero, suc, ◌+◌, ◌-◌, ◌≤◌, ◌<◌, ◌≡◌, refl, sym, ap, ◌∙◌, true, List, [], ◌∷◌, ◌++◌, lt→ltb,
  le→ltb, ==_iff, length, take, drop, get_or, arith, append_assoc, length-append, length-take,
  length-drop, take-append, drop-append, lt_or_le, inl, inr,
}
use dnp.Openpal.Serialization.{write_u16, read-write_u16}
use dnp.Link.Crc.{calc_crc, add_crc, is_correct_crc}
use dnp.Link.Frame.{block_size, calc_user_data_size, write_blocks, validate_blocks}

get_or-append :
    (xs ys : List ℕ) (i n : ℕ) → n ≡ length xs + i → get_or (xs ++ ys) n 0 ≡ get_or ys i 0
get_or-append [] ys i n e = ap (λ k. get_or ys k 0) (omega arith)
get_or-append (x ∷ xs) ys i zero e = absurd (omega arith)
get_or-append (x ∷ xs) ys i (suc n) e = get_or-append xs ys i n (omega arith)

calc_crc-le : (bytes : List ℕ) → calc_crc bytes < 65536
unfolding calc_crc
calc_crc-le bytes = omega arith

-- A checksum that was added is found correct.
pub is_correct_crc-add_crc :
    (xs rest : List ℕ) (n : ℕ)
    → length xs ≡ n
    → is_correct_crc (xs ++ (add_crc xs ++ rest)) n ≡ true
unfolding is_correct_crc add_crc
is_correct_crc-add_crc xs rest n h = rw (take-append n xs (write_u16 (calc_crc xs) ++ rest) h) (
    (==_iff _ _).1 (
      omega (
        arith,
        get_or-append xs (write_u16 (calc_crc xs) ++ rest) 0 n (omega arith),
        get_or-append xs (write_u16 (calc_crc xs) ++ rest) 1 (n + 1) (omega arith),
        read-write_u16 (calc_crc xs) (calc_crc-le xs),
      )))

length-add_crc : (xs : List ℕ) → length (add_crc xs) ≡ 2
unfolding add_crc
length-add_crc xs = refl

pub size-block :
    (n : ℕ)
    → 0 < n
    → calc_user_data_size n ≡ block_size n + 2 + calc_user_data_size (n - block_size n)
unfolding calc_user_data_size block_size
size-block n h = ground arith

size-zero : (n : ℕ) → n ≤ 0 → calc_user_data_size n ≡ 0
unfolding calc_user_data_size
size-zero n h = ground arith

pub block_size-bounds :
    (n : ℕ) → 0 < n → (0 < block_size n) × (block_size n ≤ n) × (block_size n ≤ 16)
unfolding block_size
block_size-bounds n h = ground arith

module _ (fuel : ℕ) (src : List ℕ) (n : ℕ) where
  pub write_blocks-more :
      0 < n
      → write_blocks (suc fuel) src n
        ≡ take (block_size n) src
          ++ (add_crc (take (block_size n) src)
              ++ write_blocks fuel (drop (block_size n) src) (n - block_size n))
  unfolding write_blocks
  write_blocks-more h = rw (lt→ltb 0 n h)

  validate_blocks-more :
      0 < n
      → is_correct_crc src (block_size n) ≡ true
      → validate_blocks (suc fuel) src n
        ≡ validate_blocks fuel (drop (block_size n + 2) src) (n - block_size n)
  unfolding validate_blocks
  validate_blocks-more h c = rw (lt→ltb 0 n h, c)

pub write_blocks-done : (fuel : ℕ) (src : List ℕ) (n : ℕ) → n ≤ 0 → write_blocks fuel src n ≡ []
unfolding write_blocks
write_blocks-done zero src n h = refl
write_blocks-done (suc fuel) src n h = rw (le→ltb 0 n h)

validate_blocks-done : (fuel : ℕ) (src : List ℕ) (n : ℕ) → n ≤ 0 → validate_blocks fuel src n ≡ true
unfolding validate_blocks
validate_blocks-done zero src n h = refl
validate_blocks-done (suc fuel) src n h = rw (le→ltb 0 n h)

pub length-block :
    (src : List ℕ) (n : ℕ)
    → 0 < n
    → n ≤ length src
    → length (take (block_size n) src) ≡ block_size n
length-block src n h k = omega (arith, length-take (block_size n) src, block_size-bounds n h)

-- The blocks that are written for n bytes have the size that `CalcUserDataSize` computes, where the source
-- has as many bytes and the fuel is at least n.
pub length-write_blocks :
    (fuel : ℕ) (src : List ℕ) (n : ℕ)
    → n ≤ fuel
    → n ≤ length src
    → length (write_blocks fuel src n) ≡ calc_user_data_size n
length-write_blocks zero src n h k = rw (write_blocks-done 0 src n h) (sym (size-zero n h))
length-write_blocks (suc fuel) src n h k = elim (lt_or_le 0 n) [
  | inl more ↦ rw (write_blocks-more fuel src n more) (
      omega (
        arith,
        length-append (take (block_size n) src) (add_crc (take (block_size n) src) ++ rest src n),
        length-append (add_crc (take (block_size n) src)) (rest src n),
        length-add_crc (take (block_size n) src),
        length-block src n more k,
        size-block n more,
        block_size-bounds n more,
        length-write_blocks fuel (drop (block_size n) src) (n - block_size n)
            (omega (arith, block_size-bounds n more))
            (omega (arith, block_size-bounds n more, length-drop (block_size n) src)),
      ))
  | inr done ↦ rw (write_blocks-done (suc fuel) src n done) (sym (size-zero n done))
]
  where
    rest : List ℕ → ℕ → List ℕ
    rest src n = write_blocks fuel (drop (block_size n) src) (n - block_size n)

-- Behind a block and its checksum.
pub drop_block :
    (xs rest : List ℕ) (n : ℕ) → length xs ≡ n → drop (n + 2) (xs ++ (add_crc xs ++ rest)) ≡ rest
drop_block xs rest n h =
    ap (drop (n + 2)) (sym (append_assoc xs (add_crc xs) rest))
    ∙ drop-append (n + 2) (xs ++ add_crc xs) rest
        (omega (arith, length-append xs (add_crc xs), length-add_crc xs))

-- The bytes written, and what follows them, from the first block on.
pub write_blocks-shape :
    (fuel : ℕ) (src rest : List ℕ) (n : ℕ)
    → 0 < n
    → let xs = take (block_size n) src in
      write_blocks (suc fuel) src n ++ rest
      ≡ xs
        ++ (add_crc xs ++ (write_blocks fuel (drop (block_size n) src) (n - block_size n) ++ rest))
write_blocks-shape fuel src rest n more =
    let xs = take (block_size n) src in
    let ys = write_blocks fuel (drop (block_size n) src) (n - block_size n) in
    ap (λ w. w ++ rest) (write_blocks-more fuel src n more)
    ∙ append_assoc xs (add_crc xs ++ ys) rest
    ∙ ap (◌++◌ xs) (append_assoc (add_crc xs) ys rest)

-- The blocks that were written for n bytes, whatever follows them, are found correct, where the source has
-- as many bytes and the fuel is at least n.
pub validate_blocks-write_blocks :
    (fuel : ℕ) (src rest : List ℕ) (n : ℕ)
    → n ≤ fuel
    → n ≤ length src
    → validate_blocks fuel (write_blocks fuel src n ++ rest) n ≡ true
validate_blocks-write_blocks zero src rest n h k = validate_blocks-done zero _ n h
validate_blocks-write_blocks (suc fuel) src rest n h k = elim (lt_or_le 0 n) [
  | inl more ↦
      let (pos, le, _) = block_size-bounds n more in
      let xs = take (block_size n) src in
      let ys = write_blocks fuel (drop (block_size n) src) (n - block_size n) in
      rw (write_blocks-shape fuel src rest n more) (
        validate_blocks-more fuel _ n more
          (is_correct_crc-add_crc xs (ys ++ rest) (block_size n) (length-block src n more k))
        ∙ ap (λ b. validate_blocks fuel b (n - block_size n))
            (drop_block xs (ys ++ rest) (block_size n) (length-block src n more k))
        ∙ validate_blocks-write_blocks fuel (drop (block_size n) src) rest (n - block_size n)
            (omega arith) (omega (arith, length-drop (block_size n) src)))
  | inr done ↦ validate_blocks-done (suc fuel) _ n done
]
