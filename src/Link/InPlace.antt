-- ===== src/Link/InPlace.antt =====
-- `ReadUserData` as the parser calls it: the data moves to the front of the buffer that it stands in.
use dnp.Prelude.{
  ℕ, zero, suc, ◌+◌, ◌-◌, ◌≤◌, ◌<◌, ◌≡◌, refl, sym, ap, ◌∙◌, List, [], ◌++◌, if◌then◌else◌, ltb,
  lt→ltb, le→ltb, length, take, drop, write_at, arith, append_assoc, append-nil, length-take,
  length-drop, take-append, length-write_at, take-write_at, drop-write_at, drop-drop,
  take-take-drop, lt_or_le, inl, inr,
}
use dnp.Link.Crc.{add_crc}
use dnp.Link.Frame.{block_size, calc_user_data_size, write_blocks, read_blocks}
use dnp.Link.Blocks.{block_size-bounds, size-block, length-block, drop_block, write_blocks-shape}

-- The data of a body, its checksums left out.
pub extract : ℕ → List ℕ → ℕ → List ℕ
extract zero body n = []
extract (suc fuel) body n =
    let rest = extract fuel (drop (block_size n + 2) body) (n - block_size n) in
    if ltb 0 n then take (block_size n) body ++ rest else []

extract-more :
    (fuel : ℕ) (body : List ℕ) (n : ℕ)
    → 0 < n
    → extract (suc fuel) body n
      ≡ take (block_size n) body ++ extract fuel (drop (block_size n + 2) body) (n - block_size n)
unfolding extract
extract-more fuel body n h = rw (lt→ltb 0 n h)

extract-done : (fuel : ℕ) (body : List ℕ) (n : ℕ) → n ≤ 0 → extract fuel body n ≡ []
unfolding extract
extract-done zero body n h = refl
extract-done (suc fuel) body n h = rw (le→ltb 0 n h)

read_blocks-more :
    (fuel : ℕ) (buf : List ℕ) (src dest n : ℕ)
    → 0 < n
    → read_blocks (suc fuel) buf src dest n
      ≡ read_blocks fuel
          (write_at dest (take (block_size n) (drop src buf)) buf)
          (src + (block_size n + 2))
          (dest + block_size n)
          (n - block_size n)
unfolding read_blocks
read_blocks-more fuel buf src dest n h = rw (lt→ltb 0 n h)

read_blocks-done :
    (fuel : ℕ) (buf : List ℕ) (src dest n : ℕ) → n ≤ 0 → read_blocks fuel buf src dest n ≡ buf
unfolding read_blocks
read_blocks-done zero buf src dest n h = refl
read_blocks-done (suc fuel) buf src dest n h = rw (le→ltb 0 n h)

-- The data taken out of the blocks that were written for n bytes, whatever follows them, are the first n
-- bytes of the source, where it has as many and the fuel is at least n.
pub extract-write_blocks :
    (fuel : ℕ) (src rest : List ℕ) (n : ℕ)
    → n ≤ fuel
    → n ≤ length src
    → extract fuel (write_blocks fuel src n ++ rest) n ≡ take n src
extract-write_blocks zero src rest zero h k = extract-done 0 _ 0 h
extract-write_blocks zero src rest (suc n) h k = absurd (omega arith)
extract-write_blocks (suc fuel) src rest n h k = elim (lt_or_le 0 n) [
  | inl more ↦
      let xs = take (block_size n) src in
      let ys = write_blocks fuel (drop (block_size n) src) (n - block_size n) ++ rest in
      rw (write_blocks-shape fuel src rest n more) (
        extract-more fuel (xs ++ (add_crc xs ++ ys)) n more
        ∙ ap
            (λ front.
              front
              ++ extract fuel (drop (block_size n + 2) (xs ++ (add_crc xs ++ ys)))
                  (n - block_size n))
            (take-append (block_size n) xs (add_crc xs ++ ys) (length-block src n more k))
        ∙ ap (λ body. xs ++ extract fuel body (n - block_size n))
            (drop_block xs ys (block_size n) (length-block src n more k))
        ∙ ap (◌++◌ xs) (
            extract-write_blocks fuel (drop (block_size n) src) rest (n - block_size n)
              (omega (arith, block_size-bounds n more))
              (omega (arith, length-drop (block_size n) src)))
        ∙ take-take-drop (block_size n) (n - block_size n) src
        ∙ ap (λ i. take i src) (omega (arith, block_size-bounds n more)))
  | inr done ↦ extract-done (suc fuel) _ n done ∙ ap (λ i. take i src) {x = 0} (omega arith)
]

-- What a read within one buffer leaves: the data behind what stood in front of `dest`, and every byte
-- behind the data as it was.
pub record Moved (fuel : ℕ) (buf : List ℕ) (src dest n : ℕ) (after : List ℕ) : Type 0 where
  pub front : take (dest + n) after ≡ take dest buf ++ extract fuel (drop src buf) n
  pub back : (m : ℕ) → dest + n ≤ m → drop m after ≡ drop m buf
  pub size : length after ≡ length buf

Moved-done :
    (fuel : ℕ) (buf : List ℕ) (src dest n : ℕ)
    → n ≤ 0
    → Moved fuel buf src dest n (read_blocks fuel buf src dest n)
Moved-done fuel buf src dest n h = rw (read_blocks-done fuel buf src dest n h) (record {
  front =
      ap (λ i. take i buf) {y = dest} (omega arith)
      ∙ sym (append-nil (take dest buf))
      ∙ ap (◌++◌ (take dest buf)) (sym (extract-done fuel (drop src buf) n h));
  back = λ m _. refl;
  size = refl;
})

module _ (fuel : ℕ) (buf : List ℕ) (src dest n : ℕ) (more : 0 < n) (d : dest ≤ src)
    (s : src + calc_user_data_size n ≤ length buf) where
  moving : List ℕ
  moving = take (block_size n) (drop src buf)

  length-moving : length moving ≡ block_size n
  unfolding moving
  length-moving =
      omega
        (arith, length-take (block_size n) (drop src buf), length-drop src buf, size-block n more)

  -- The rest of the body is not touched by the move of a block.
  body_stays :
      drop (src + (block_size n + 2)) (write_at dest moving buf)
      ≡ drop (block_size n + 2) (drop src buf)
  body_stays =
      drop-write_at dest (src + (block_size n + 2)) moving buf (omega (arith, size-block n more))
        (omega (arith, length-moving))
      ∙ sym (drop-drop (block_size n + 2) src buf)

  Moved-more :
      (after : List ℕ)
      → Moved fuel
          (write_at dest moving buf)
          (src + (block_size n + 2))
          (dest + block_size n)
          (n - block_size n)
          after
      → Moved (suc fuel) buf src dest n after
  unfolding moving
  Moved-more after r = record {
    front =
        ap (λ i. take i after) (omega (arith, block_size-bounds n more))
        ∙ r.front
        ∙ ap
            (λ xs.
              xs
              ++ extract fuel (drop (src + (block_size n + 2)) (write_at dest moving buf))
                  (n - block_size n))
            (take-write_at dest (dest + block_size n) moving buf (omega (arith, length-moving))
              (omega (arith, size-block n more)))
        ∙ append_assoc (take dest buf) moving _
        ∙ ap (λ body. take dest buf ++ (moving ++ extract fuel body (n - block_size n))) body_stays
        ∙ ap (◌++◌ (take dest buf)) (sym (extract-more fuel (drop src buf) n more));
    back = λ m h.
        r.back m (omega (arith, block_size-bounds n more))
        ∙ drop-write_at dest m moving buf (omega (arith, size-block n more))
            (omega (arith, length-moving, block_size-bounds n more));
    size =
        r.size ∙ length-write_at dest moving buf (omega (arith, length-moving, size-block n more));
  }

-- Within one buffer, data of at most `fuel` bytes that moves to a place at or in front of the body it
-- stands in, where the buffer holds the whole body: behind the bytes in front of the new place stands the
-- data with its checksums left out, every byte behind the data is as it was, and so is the buffer's size.
pub read_blocks-Moved :
    (fuel : ℕ) (buf : List ℕ) (src dest n : ℕ)
    → n ≤ fuel
    → dest ≤ src
    → src + calc_user_data_size n ≤ length buf
    → Moved fuel buf src dest n (read_blocks fuel buf src dest n)
unfolding moving
read_blocks-Moved zero buf src dest n h d s = Moved-done 0 buf src dest n h
read_blocks-Moved (suc fuel) buf src dest n h d s =
    let next =
      λ (le : n - block_size n ≤ fuel) (d' : dest + block_size n ≤ src + (block_size n + 2))
          (s' : src + (block_size n + 2) + calc_user_data_size (n - block_size n)
            ≤ length (write_at dest (take (block_size n) (drop src buf)) buf)).
        read_blocks-Moved fuel (write_at dest (take (block_size n) (drop src buf)) buf)
          (src + (block_size n + 2)) (dest + block_size n) (n - block_size n) le d' s' in
    elim (lt_or_le 0 n) [
      | inl more ↦ rw (read_blocks-more fuel buf src dest n more) (
          Moved-more fuel buf src dest n more d s _ (
            next (omega (arith, block_size-bounds n more)) (omega arith) (
              omega (
                arith,
                size-block n more,
                length-write_at dest (moving fuel buf src dest n more d s) buf
                    (omega (arith, length-moving fuel buf src dest n more d s, size-block n more)),
              ))))
      | inr done ↦ Moved-done (suc fuel) buf src dest n done
    ]
