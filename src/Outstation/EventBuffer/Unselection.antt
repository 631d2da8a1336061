-- ===== src/Outstation/EventBuffer/Unselection.antt =====
-- What `Unselect` does: its loop stops when no selected event is left.
use dnp.Prelude.{
  ◌≤◌, Bool, true, false, ◌&&◌, List, [], ◌∷◌, if◌then◌else◌, ◌≡◌, refl, length, arith, All, ltb,
  sym, ap, ◌∙◌, if_intro, subst,
}
use mathlib.Core.List.{map}
use dnp.Outstation.EventCount.{EventCount, Key, all, counted, amount, same_type, decrement}
use dnp.Outstation.SoeRecord.{SoeRecord, reset}
use dnp.Outstation.EventBuffer.{EventBuffer, unselect, unselect_loop}
use dnp.Outstation.EventBuffer.Facts.{count, count-cons, count_nil}
use dnp.Outstation.EventBuffer.Invariant.{
  Counts, Stored, Selecting, selected, written, length-le, Counts-removed,
}

module _ {V : Type 0} where
  abbrev Idle : SoeRecord V → Type 0
  Idle r = (r.selected ≡ false) × (r.written ≡ false)

  reset-Idle : (r : SoeRecord V) → Idle r → reset r ≡ r
  unfolding reset
  reset-Idle r h =
      ap (λ f. record r { selected = f; written = false }) (sym h.0)
      ∙ ap (λ f. record r { written = f }) (sym h.1)

  map-reset-Idle : (xs : List (SoeRecord V)) → All Idle xs → map reset xs ≡ xs
  map-reset-Idle [] h = refl
  map-reset-Idle (x ∷ xs) h = rw (reset-Idle x h.0, map-reset-Idle xs h.1) refl

  -- No selected event is left when the counter of all is zero.
  count-Idle_zero :
      (xs : List (SoeRecord V))
      → All (λ r. r.written ≡ true → r.selected ≡ true) xs
      → count (λ r. selected r && true) xs ≡ 0
      → All Idle xs
  unfolding count
  count-Idle_zero [] h e = tt
  count-Idle_zero (x ∷ xs) h e =
      (ground (arith, e, h.0), count-Idle_zero xs h.1 (ground (arith, e)))

  count-Idle :
      (q : SoeRecord V → Bool) (xs : List (SoeRecord V))
      → All Idle xs
      → (count (λ r. r.selected && q r) xs ≡ 0) × (count (λ r. r.written && q r) xs ≡ 0)
  unfolding count
  count-Idle q [] h = (refl, refl)
  count-Idle q (x ∷ xs) h = ground (arith, h.0, count-Idle q xs h.1)

  count-reset :
      (p : SoeRecord V → Bool) (xs : List (SoeRecord V))
      → ((r : SoeRecord V) → p (reset r) ≡ p r)
      → count p (map reset xs) ≡ count p xs
  unfolding count
  count-reset p [] h = refl
  count-reset p (x ∷ xs) h = ground (arith, h x, count-reset p xs h)

  -- All three results of the loop.
  record Released (xs : List (SoeRecord V)) (out : List (SoeRecord V) × EventCount × EventCount)
      : Type 0 where
    events : out.0 ≡ map reset xs
    none_selected : (k : Key) → amount out.1 k ≡ 0
    none_written : (k : Key) → amount out.2 k ≡ 0

  unselect_loop-Released :
      (xs : List (SoeRecord V)) (s w : EventCount)
      → length xs ≤ 524280
      → All (λ r. r.written ≡ true → r.selected ≡ true) xs
      → Counts s selected xs
      → Counts w written xs
      → Released xs (unselect_loop xs s w)
  unfolding unselect_loop
  unselect_loop-Released [] s w short h cs cw = record {
    events = refl;
    none_selected = λ k. cs k ∙ count_nil (λ r. r.selected && counted k (r.clazz) (r.type));
    none_written = λ k. cw k ∙ count_nil (λ r. r.written && counted k (r.clazz) (r.type));
  }
  unselect_loop-Released (x ∷ xs) s w short h cs cw =
      let s1 = if x.selected then decrement s x.clazz x.type else s in
      let w1 = if x.written then decrement w x.clazz x.type else w in
      let cs1 =
        Counts-removed s selected (x ∷ xs) xs x (λ q. count-cons q x xs) (omega (arith, short))
          cs in
      let cw1 =
        Counts-removed w written (x ∷ xs) xs x (λ q. count-cons q x xs) (omega (arith, short)) cw in
      let rest = unselect_loop-Released xs s1 w1 (omega (arith, short)) h.1 cs1 cw1 in
      if_intro (ltb 0 (s1.total)) (Released (x ∷ xs))
        (λ e. record {
          events = ap (◌∷◌ (reset x)) rest.events;
          none_selected = rest.none_selected;
          none_written = rest.none_written;
        })
        (λ e.
          let idle = count-Idle_zero xs h.1 (sym (cs1 all) ∙ ground (arith, e)) in
          record {
            events = ap (◌∷◌ (reset x)) (sym (map-reset-Idle xs idle));
            none_selected = λ k. cs1 k ∙ (count-Idle (λ r. counted k (r.clazz) (r.type)) xs idle).0;
            none_written = λ k. cw1 k ∙ (count-Idle (λ r. counted k (r.clazz) (r.type)) xs idle).1;
          })

-- What stays after the selection is dropped: the same events, none of them selected or written.
pub record Unselected {V : Type 0} (b b' : EventBuffer V) : Type 0 where
  pub events : b'.events ≡ map reset b.events
  pub keeps : Stored b'
  pub selecting : Selecting b'
  pub none_selected : (k : Key) → amount b'.selected_counts k ≡ 0
  pub none_written : (k : Key) → amount b'.written_counts k ≡ 0

module _ {V : Type 0} where
  All-reset : (xs : List (SoeRecord V)) → All Idle (map reset xs)
  unfolding reset
  All-reset [] = tt
  All-reset (x ∷ xs) = ((refl, refl), All-reset xs)

  All-imp :
      (P Q : SoeRecord V → Type 0) (xs : List (SoeRecord V))
      → ((r : SoeRecord V) → P r → Q r)
      → All P xs
      → All Q xs
  All-imp P Q [] f h = tt
  All-imp P Q (x ∷ xs) f h = (f x h.0, All-imp P Q xs f h.1)

  -- In a buffer whose counters are right and where every written event is selected, Unselect leaves
  -- the same events, none of them selected or written, although its loop stops when no selected
  -- event is left, and every counter of the selected and of the written events is zero.
  pub unselect-Unselected : (b : EventBuffer V) → Stored b → Selecting b → Unselected b (unselect b)
  unfolding unselect reset
  unselect-Unselected b k s =
      let out =
        unselect_loop-Released b.events b.selected_counts b.written_counts
          (omega (arith, k.bounded, length-le b k)) s.written_selected s.counts k.written in
      let idle : All Idle (unselect b).events =
        subst (All Idle) (sym out.events) (All-reset b.events) in
      record {
        events = out.events;
        keeps = record {
          total = λ key.
              k.total key
              ∙ sym (
                  ap (count (λ r. counted key (r.clazz) (r.type))) out.events
                  ∙ count-reset (λ r. counted key (r.clazz) (r.type)) b.events (λ r. refl));
          written = λ key.
              out.none_written key
              ∙ sym (count-Idle (λ r. counted key (r.clazz) (r.type)) (unselect b).events idle).1;
          limits = λ t. omega (
            arith,
            k.limits t,
            ap (count (λ r. same_type (r.type) t)) out.events,
            count-reset (λ r. same_type (r.type) t) b.events (λ r. refl),
          );
          bounded = k.bounded;
        };
        selecting = record {
          counts = λ key.
              out.none_selected key
              ∙ sym (count-Idle (λ r. counted key (r.clazz) (r.type)) (unselect b).events idle).0;
          written_selected =
              All-imp Idle (λ r. r.written ≡ true → r.selected ≡ true) (unselect b).events
                (λ r h e. absurd (ground (arith, h, e))) idle;
        };
        none_selected = out.none_selected;
        none_written = out.none_written;
      }
