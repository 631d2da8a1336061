-- ===== src/Outstation/EventBuffer/Marking.antt =====
-- The loop of the two selections against the marking of the oldest records that match.
use dnp.Prelude.{
  ℕ, zero, suc, ◌+◌, ◌<◌, Bool, true, false, ◌&&◌, List, [], ◌∷◌, if◌then◌else◌, ◌≡◌, refl, length,
  arith, Option, none, some, All, ltb, Bool-cases, inl, inr, sym, ap, min, ◌∙◌, if_intro,
}
use dnp.Outstation.EventCount.{EventCount, Key, counted, amount, amount-increment, increment}
use dnp.Outstation.SoeRecord.{SoeRecord, select, select_default}
use dnp.Outstation.EventBuffer.{select_loop, choose_variation}
use dnp.Outstation.EventBuffer.Facts.{count}

-- The first `n` records that match are chosen.
unfoldable pub mark :
    {V : Type 0}
    → (SoeRecord V → Bool)
    → (SoeRecord V → SoeRecord V)
    → ℕ
    → List (SoeRecord V)
    → List (SoeRecord V)
mark match choose zero xs = xs
mark match choose (suc n) [] = []
mark match choose (suc n) (r ∷ rs) =
    let taken = mark match choose n rs in
    let passed = mark match choose (suc n) rs in if match r then choose r ∷ taken else r ∷ passed

-- A choice selects a record and leaves what the counters look at.
pub record Selects {V : Type 0} (choose : SoeRecord V → SoeRecord V) : Type 0 where
  pub selects : (r : SoeRecord V) → (choose r).selected ≡ true
  pub type : (r : SoeRecord V) → (choose r).type ≡ r.type
  pub clazz : (r : SoeRecord V) → (choose r).clazz ≡ r.clazz
  pub written : (r : SoeRecord V) → (choose r).written ≡ r.written

pub choose_variation-Selects : {V : Type 0} (v : Option ℕ) → Selects {V = V} (choose_variation v)
unfolding choose_variation select select_default
choose_variation-Selects none = record {
  selects = λ r. refl;
  type = λ r. refl;
  clazz = λ r. refl;
  written = λ r. refl;
}
choose_variation-Selects (some v) = record {
  selects = λ r. refl;
  type = λ r. refl;
  clazz = λ r. refl;
  written = λ r. refl;
}

module _ {V : Type 0} (match : SoeRecord V → Bool) (choose : SoeRecord V → SoeRecord V) where
  mark_nil : (n : ℕ) → mark match choose n [] ≡ []
  unfolding mark
  mark_nil zero = refl
  mark_nil (suc n) = refl

  -- The loop's records, where `q` more may be chosen.
  pub select_loop-events :
      (remaining max num q : ℕ) (n : EventCount) (xs : List (SoeRecord V))
      → num + q ≡ min remaining max
      → (select_loop match choose remaining max num n xs).0 ≡ mark match choose q xs
  unfolding select_loop mark
  select_loop-events remaining max num zero n [] e = refl
  select_loop-events remaining max num (suc q) n [] e = refl
  select_loop-events remaining max num zero n (r ∷ rs) e = ground (arith, e)
  select_loop-events remaining max num (suc q) n (r ∷ rs) e = ground (
    arith,
    e,
    select_loop-events remaining max num (suc q) n rs e,
    select_loop-events remaining max (suc num) q (increment n r.clazz r.type) rs (omega (arith, e)),
  )

  -- A property that the choice leaves has the same count.
  pub count-mark :
      (p : SoeRecord V → Bool) (q : ℕ) (xs : List (SoeRecord V))
      → ((r : SoeRecord V) → p (choose r) ≡ p r)
      → count p (mark match choose q xs) ≡ count p xs
  unfolding mark count
  count-mark p zero xs h = refl
  count-mark p (suc q) [] h = refl
  count-mark p (suc q) (x ∷ xs) h =
      ground (arith, count-mark p q xs h, count-mark p (suc q) xs h, h x)

  mark_pass :
      (x : SoeRecord V) (xs : List (SoeRecord V)) (q : ℕ)
      → match x ≡ false
      → mark match choose q (x ∷ xs) ≡ x ∷ mark match choose q xs
  unfolding mark
  mark_pass x xs zero e = refl
  mark_pass x xs (suc q) e = ground (arith, e)

  -- To mark as many as match is to mark without a limit.
  pub mark_enough :
      (max : ℕ) (xs : List (SoeRecord V))
      → mark match choose (min (count match xs) max) xs ≡ mark match choose max xs
  unfolding mark count
  mark_enough max [] = mark_nil _ ∙ sym (mark_nil max)
  mark_enough zero (x ∷ xs) =
      ap (λ q. mark match choose q (x ∷ xs)) {x = min (count match (x ∷ xs)) 0} {y = 0}
        (omega arith)
  mark_enough (suc max) (x ∷ xs) = elim (Bool-cases (match x)) [
    | inl e ↦
        ap (λ q. mark match choose q (x ∷ xs)) {x = min (count match (x ∷ xs)) (suc max)}
          {y = suc (min (count match xs) max)} (ground (arith, e))
        ∙ ground (arith, e, mark_enough max xs)
    | inr e ↦
        ap (λ q. mark match choose q (x ∷ xs)) {x = min (count match (x ∷ xs)) (suc max)}
          {y = min (count match xs) (suc max)} (ground (arith, e))
        ∙ mark_pass x xs (min (count match xs) (suc max)) e
        ∙ ap (◌∷◌ x) (mark_enough (suc max) xs)
        ∙ sym (mark_pass x xs (suc max) e)
  ]

  pub mark-written_selected :
      Selects choose
      → (q : ℕ) (xs : List (SoeRecord V)) → All (λ r. r.written ≡ true → r.selected ≡ true) xs
      → All (λ r. r.written ≡ true → r.selected ≡ true) (mark match choose q xs)
  unfolding mark
  mark-written_selected s zero xs h = h
  mark-written_selected s (suc q) [] h = h
  mark-written_selected s (suc q) (x ∷ xs) h =
      if_intro (match x) (All (λ r. r.written ≡ true → r.selected ≡ true))
        (λ e. (λ w. s.selects x, mark-written_selected s q xs h.1))
        (λ e. (h.0, mark-written_selected s (suc q) xs h.1))

  -- What the loop adds to the counters is what it adds to the list.
  pub select_loop-counts :
      Selects choose
      → (remaining max num : ℕ) (n : EventCount) (xs : List (SoeRecord V)) (k : Key)
      → All (λ r. match r ≡ true → r.selected ≡ false) xs
      → amount n k + length xs < 4294967296
      → amount (select_loop match choose remaining max num n xs).1 k
          + count (λ r. r.selected && counted k (r.clazz) (r.type)) xs
        ≡ amount n k
          + count
              (λ r. r.selected && counted k (r.clazz) (r.type))
              (select_loop match choose remaining max num n xs).0
  unfolding select_loop count
  select_loop-counts s remaining max num n [] k h b = refl
  select_loop-counts s remaining max num n (r ∷ rs) k h b =
      let taken =
        select_loop match choose remaining max (suc num) (increment n r.clazz r.type) rs in
      let passed = select_loop match choose remaining max num n rs in
      let C = count (λ r. r.selected && counted k (r.clazz) (r.type)) in
      let P : (List (SoeRecord V) × EventCount) → Type 0 =
        λ out. amount out.1 k + C (r ∷ rs) ≡ amount n k + C out.0 in
      let same_key : counted k (choose r).clazz (choose r).type ≡ counted k r.clazz r.type =
        rw (s.clazz r, s.type r) refl in
      if_intro (ltb num remaining && ltb num max) P
        (λ e.
          if_intro (match r) P
            (λ m.
              let inc : amount (increment n r.clazz r.type) k + length rs < 4294967296 =
                ground (arith, b, amount-increment n r.clazz r.type k) in
              ground (
                arith,
                b,
                h.0 m,
                same_key,
                s.selects r,
                amount-increment n r.clazz r.type k,
                select_loop-counts s remaining max (suc num) (increment n r.clazz r.type) rs k h.1
                    inc,
              ))
            (λ m.
              ground (arith, select_loop-counts s remaining max num n rs k h.1 (omega (arith, b)))))
        (λ e. refl)
