-- ===== src/Outstation/EventBuffer/Selection.antt =====
-- What the two selections do to a buffer in which no event that they look for is selected.
use dnp.Prelude.{
  ℕ, ◌+◌, ◌≤◌, Bool, true, false, ◌&&◌, List, [], ◌∷◌, if◌then◌else◌, ◌≡◌, refl, length, arith,
  Option, none, All, sym, ap, min, ◌∙◌, subst,
}
use dnp.App.ClassField.{
  EventType, EventClass, ClassField, has_event_type, has_class1, has_class2, has_class3, ec1, ec2,
  ec3,
}
use dnp.Outstation.EventCount.{
  EventCount, by_type, by_class, counted, same_type, same_class, num_of_type, num_of_class,
  num_of_classes, sub32,
}
use dnp.Outstation.SoeRecord.{SoeRecord, select_default}
use dnp.Outstation.EventBuffer.{
  EventBuffer, select_loop, select_by_type, select_by_class, choose_variation,
}
use dnp.Outstation.EventBuffer.Facts.{count, bit, count-le-length}
use dnp.Outstation.EventBuffer.Marking.{
  mark, Selects, choose_variation-Selects, select_loop-events, count-mark, mark_enough,
  mark-written_selected, select_loop-counts,
}
use dnp.Outstation.EventBuffer.Invariant.{Counts, Stored, Selecting, stored, selected, length-le}

class_bit :
    (field : ClassField) (p : Bool) (c : EventClass)
    → bit (p && has_event_type field c)
      ≡ (if has_class1 field then bit (p && same_class c ec1) else 0)
        + (if has_class2 field then bit (p && same_class c ec2) else 0)
        + (if has_class3 field then bit (p && same_class c ec3) else 0)
unfolding has_event_type
class_bit field p ec1 = ground arith
class_bit field p ec2 = ground arith
class_bit field p ec3 = ground arith

-- What a selection leaves: the oldest `max` matching events are chosen, and the counters agree with them.
pub record Chosen {V : Type 0} (match : SoeRecord V → Bool) (choose : SoeRecord V → SoeRecord V)
    (max : ℕ) (b b' : EventBuffer V) : Type 0 where
  pub events : b'.events ≡ mark match choose max b.events
  pub keeps : Stored b'
  pub selecting : Selecting b'

module _ {V : Type 0} where
  count_none :
      (p : SoeRecord V → Bool) (xs : List (SoeRecord V))
      → All (λ r. p r ≡ true → r.selected ≡ false) xs
      → count (λ r. r.selected && p r) xs ≡ 0
  unfolding count
  count_none p [] h = refl
  count_none p (x ∷ xs) h = ground (arith, h.0, count_none p xs h.1)

module _ {V : Type 0} (match : SoeRecord V → Bool) (choose : SoeRecord V → SoeRecord V)
    (s : Selects choose) where
  selection-Chosen :
      (remaining max : ℕ) (b : EventBuffer V)
      → Stored b
      → Selecting b
      → All (λ r. match r ≡ true → r.selected ≡ false) b.events
      → remaining ≡ count match b.events
      → Chosen match choose max b (record b {
        events = (select_loop match choose remaining max 0 b.selected_counts b.events).0;
        selected_counts = (select_loop match choose remaining max 0 b.selected_counts b.events).1;
      })
  selection-Chosen remaining max b k c free enough =
      let out = select_loop match choose remaining max 0 b.selected_counts b.events in
      let marked : out.0 ≡ mark match choose max b.events =
        select_loop-events match choose remaining max 0 (min remaining max) b.selected_counts
          b.events (omega arith)
        ∙ ap (λ n. mark match choose (min n max) b.events) enough
        ∙ mark_enough match choose max b.events in
      let same : (p : SoeRecord V → Bool)
          → ((r : SoeRecord V) → p (choose r) ≡ p r)
          → count p out.0 ≡ count p b.events =
        λ p h. ap (count p) marked ∙ count-mark match choose p max b.events h in
      record {
        events = marked;
        keeps = record {
          total = λ key.
              k.total key
              ∙ sym
                  (same (λ r. counted key (r.clazz) (r.type)) (λ r. rw (s.clazz r, s.type r) refl));
          written = λ key.
              k.written key
              ∙ sym (
                  same (λ r. r.written && counted key (r.clazz) (r.type))
                    (λ r. rw (s.clazz r, s.type r, s.written r) refl));
          limits = λ t.
              omega (arith, k.limits t, same (λ r. same_type (r.type) t) (λ r. rw (s.type r) refl));
          bounded = k.bounded;
        };
        selecting = record {
          counts = λ key. omega (
            arith,
            c.counts key,
            k.bounded,
            length-le b k,
            count-le-length (λ r. r.selected && counted key (r.clazz) (r.type)) b.events,
            select_loop-counts match choose s remaining max 0 b.selected_counts b.events key free (
                omega (
                  arith,
                  c.counts key,
                  k.bounded,
                  length-le b k,
                  count-le-length (λ r. r.selected && counted key (r.clazz) (r.type)) b.events,
                )),
          );
          written_selected =
              subst (All (λ r. r.written ≡ true → r.selected ≡ true)) (sym marked)
                (mark-written_selected match choose s max b.events c.written_selected);
        };
      }

module _ {V : Type 0} where
  -- In a buffer whose counters are right and where no event of the type is selected, SelectByType
  -- selects exactly the oldest events of the type, up to the maximum, with the variation of the
  -- request or their default, and the counters are right again.
  pub select_by_type-Chosen :
      (t : EventType) (max : ℕ) (variation : Option ℕ) (b : EventBuffer V)
      → Stored b
      → Selecting b
      → All (λ r. same_type (r.type) t ≡ true → r.selected ≡ false) b.events
      → Chosen
          (λ r. same_type (r.type) t)
          (choose_variation variation)
          max
          b
          (select_by_type t max variation b)
  unfolding select_by_type num_of_type
  select_by_type-Chosen t max variation b k c free =
      selection-Chosen (λ r. same_type (r.type) t) (choose_variation variation)
        (choose_variation-Selects variation)
        (sub32 (b.total_counts.of_type t) (b.selected_counts.of_type t)) max b k c free
        (omega (
          arith,
          k.total (by_type t),
          c.counts (by_type t),
          count_none (λ r. same_type (r.type) t) b.events free,
          count-le-length (λ r. same_type (r.type) t) b.events,
          length-le b k,
          k.bounded,
        ))

  count_classes :
      (field : ClassField) (p : SoeRecord V → Bool) (xs : List (SoeRecord V))
      → count (λ r. p r && has_event_type field (r.clazz)) xs
        ≡ (if has_class1 field then count (λ r. p r && same_class (r.clazz) ec1) xs else 0)
          + (if has_class2 field then count (λ r. p r && same_class (r.clazz) ec2) xs else 0)
          + (if has_class3 field then count (λ r. p r && same_class (r.clazz) ec3) xs else 0)
  unfolding count
  count_classes field p [] = ground arith
  count_classes field p (x ∷ xs) =
      ground (arith, count_classes field p xs, class_bit field (p x) x.clazz)

  num_of_classes_lem :
      (field : ClassField) (n : EventCount) (p : SoeRecord V → Bool) (xs : List (SoeRecord V))
      → Counts n p xs
      → length xs ≤ 524280
      → num_of_classes n field ≡ count (λ r. p r && has_event_type field (r.clazz)) xs
  unfolding num_of_classes num_of_class
  num_of_classes_lem field n p xs h short = ground (
    arith,
    count_classes field p xs,
    h (by_class ec1),
    h (by_class ec2),
    h (by_class ec3),
    short,
    count-le-length (λ r. p r && same_class (r.clazz) ec1) xs,
    count-le-length (λ r. p r && same_class (r.clazz) ec2) xs,
    count-le-length (λ r. p r && same_class (r.clazz) ec3) xs,
  )

  -- In a buffer whose counters are right and where no event of the classes is selected,
  -- SelectByClass selects exactly the oldest events of the classes, up to the maximum, with their
  -- default variations, and the counters are right again.
  pub select_by_class-Chosen :
      (field : ClassField) (max : ℕ) (b : EventBuffer V)
      → Stored b
      → Selecting b
      → All (λ r. has_event_type field (r.clazz) ≡ true → r.selected ≡ false) b.events
      → Chosen
          (λ r. has_event_type field (r.clazz))
          select_default
          max
          b
          (select_by_class field max b)
  unfolding select_by_class select_default choose_variation
  select_by_class-Chosen field max b k c free =
      let short : length b.events ≤ 524280 = omega (arith, length-le b k, k.bounded) in
      selection-Chosen (λ r. has_event_type field (r.clazz)) select_default
        (choose_variation-Selects none)
        (sub32 (num_of_classes b.total_counts field) (num_of_classes b.selected_counts field)) max b
        k c free
        (omega (
          arith,
          num_of_classes_lem field b.total_counts stored b.events k.total short,
          num_of_classes_lem field b.selected_counts selected b.events c.counts short,
          count_none (λ r. has_event_type field (r.clazz)) b.events free,
          count-le-length (λ r. has_event_type field (r.clazz)) b.events,
          short,
        ))
