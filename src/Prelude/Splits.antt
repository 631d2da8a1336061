-- ===== src/Prelude/Splits.antt =====
-- The copy of bytes into a buffer at an offset (`memcpy`, `memmove`): the buffer keeps its length
-- where the bytes fit.
use Prim.Native.Nat.{ℕ, zero, suc, ◌+◌, ◌-◌, ◌≤◌}
use mathlib.Core.Path.{◌≡◌, sym, ap, ◌∙◌}
use mathlib.Core.List.{List, [], ◌∷◌, ◌++◌, append_assoc}
use native.Mathlib.Omega.{arith}
use dnp.Prelude.Lists.{
  length, take, drop, length-append, length-take, length-drop, take-append, take_all, drop_all,
}

module _ {ℓ} {A : Type ℓ} where
  abbrev pub write_at : ℕ → List A → List A → List A
  write_at n src buf = take n buf ++ (src ++ drop (n + length src) buf)

  pub length-write_at :
      (n : ℕ) (src buf : List A)
      → n + length src ≤ length buf
      → length (write_at n src buf) ≡ length buf
  length-write_at n src buf h = omega (
    arith,
    length-append (take n buf) (src ++ drop (n + length src) buf),
    length-append src (drop (n + length src) buf),
    length-take n buf,
    length-drop (n + length src) buf,
  )

  -- What stands below the end of the copied bytes.
  pub take-write_at :
      (n m : ℕ) (src buf : List A)
      → m ≡ n + length src
      → n ≤ length buf
      → take m (write_at n src buf) ≡ take n buf ++ src
  take-write_at n m src buf e h =
      ap (take m) (sym (append_assoc (take n buf) src (drop (n + length src) buf)))
      ∙ take-append m (take n buf ++ src) (drop (n + length src) buf)
          (omega (arith, length-append (take n buf) src, length-take n buf))

  pub drop-drop : (a b : ℕ) (xs : List A) → drop a (drop b xs) ≡ drop (b + a) xs
  drop-drop a zero xs = ap (λ n. drop n xs) (omega arith)
  drop-drop zero (suc b) [] = sym (drop_all (suc b + zero) [] (omega arith))
  drop-drop (suc a) (suc b) [] = sym (drop_all (suc b + suc a) [] (omega arith))
  drop-drop a (suc b) (x ∷ xs) =
      drop-drop a b xs ∙ ap (λ n. drop n (x ∷ xs)) {x = suc (b + a)} (omega arith)

  pub drop-append_add :
      (xs ys : List A) (j m : ℕ) → m ≡ length xs + j → drop m (xs ++ ys) ≡ drop j ys
  drop-append_add [] ys j m e = ap (λ n. drop n ys) (omega arith)
  drop-append_add (x ∷ xs) ys j zero e = absurd (omega arith)
  drop-append_add (x ∷ xs) ys j (suc m) e = drop-append_add xs ys j m (omega arith)

  -- What stands behind the copied bytes stays.
  pub drop-write_at :
      (n m : ℕ) (src buf : List A)
      → n ≤ length buf
      → n + length src ≤ m
      → drop m (write_at n src buf) ≡ drop m buf
  drop-write_at n m src buf h k =
      ap (drop m) (sym (append_assoc (take n buf) src (drop (n + length src) buf)))
      ∙ drop-append_add (take n buf ++ src) (drop (n + length src) buf) (m - (n + length src)) m
          (omega (arith, length-append (take n buf) src, length-take n buf))
      ∙ drop-drop (m - (n + length src)) (n + length src) buf
      ∙ ap (λ i. drop i buf) (omega arith)

  pub take-take-drop : (a c : ℕ) (xs : List A) → take a xs ++ take c (drop a xs) ≡ take (a + c) xs
  take-take-drop zero c xs = ap (λ n. take n xs) (omega arith)
  take-take-drop (suc a) zero [] = sym (take_all (suc a + zero) [] (omega arith))
  take-take-drop (suc a) (suc c) [] = sym (take_all (suc a + suc c) [] (omega arith))
  take-take-drop (suc a) c (x ∷ xs) =
      ap (◌∷◌ x) (take-take-drop a c xs) ∙ ap (λ n. take n (x ∷ xs)) {x = suc (a + c)} (omega arith)
