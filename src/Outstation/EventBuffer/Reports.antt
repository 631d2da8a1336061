-- ===== src/Outstation/EventBuffer/Reports.antt =====
-- What the buffer reports of its events, and a selection of events that are already selected.
use dnp.Prelude.{
  ℕ, suc, ◌+◌, ◌<◌, Bool, true, false, not, ◌&&◌, ◌||◌, List, [], ◌∷◌, ◌≡◌, refl, arith, Option,
  All, ltb, ap, ◌∙◌,
}
use dnp.App.ClassField.{
  EventType, EventClass, ec1, ec2, ec3, has_event_type, has_class1, has_class2, has_class3,
  of_flags,
}
use dnp.Outstation.EventCount.{
  EventCount, all, by_type, by_class, amount, amount-increment, same_type, same_class, increment,
  num_of_type, num_of_class, sub32,
}
use dnp.Outstation.SoeRecord.{SoeRecord}
use dnp.Outstation.EventBuffer.{
  EventBuffer, has_any_selection, has_unwritten_events, unwritten_class_field, select_loop,
  select_by_type, choose_variation,
}
use dnp.Outstation.EventBuffer.Facts.{count, bit, count-cons, count-le-length}
use dnp.Outstation.EventBuffer.Marking.{choose_variation-Selects}
use dnp.Outstation.EventBuffer.Invariant.{Stored, Selecting, length-le}

flags_lem :
    (c1 c2 c3 : Bool) (c : EventClass)
    → has_event_type (of_flags false c1 c2 c3) c ≡ elim c [ ec1 ↦ c1 | ec2 ↦ c2 | ec3 ↦ c3 ]
unfolding has_event_type has_class1 has_class2 has_class3 of_flags
flags_lem c1 c2 c3 ec1 = ground arith
flags_lem c1 c2 c3 ec2 = ground arith
flags_lem c1 c2 c3 ec3 = ground arith

module _ {V : Type 0} where
  -- Some record has the property.
  unfoldable pub any : (SoeRecord V → Bool) → List (SoeRecord V) → Bool
  any p [] = false
  any p (r ∷ rs) = p r || any p rs

  any-count : (p : SoeRecord V → Bool) (xs : List (SoeRecord V)) → any p xs ≡ ltb 0 (count p xs)
  unfolding any count
  any-count p [] = refl
  any-count p (x ∷ xs) = ground (arith, any-count p xs)

  -- The selected records are the written and those that wait.
  count_waiting :
      (xs : List (SoeRecord V))
      → All (λ r. r.written ≡ true → r.selected ≡ true) xs
      → count (λ r. r.selected && true) xs
        ≡ count (λ r. r.written && true) xs + count (λ r. r.selected && not r.written) xs
  unfolding count
  count_waiting [] h = omega arith
  count_waiting (x ∷ xs) h = ground (arith, h.0, count_waiting xs h.1)

  pub has_any_selection-any :
      (b : EventBuffer V)
      → Stored b
      → Selecting b
      → has_any_selection b ≡ any (λ r. r.selected && not r.written) b.events
  unfolding has_any_selection
  has_any_selection-any b k s = ground (
    arith,
    any-count (λ r. r.selected && not r.written) b.events,
    count_waiting b.events s.written_selected,
    s.counts all,
    k.written all,
  )

  count_unwritten :
      (q : SoeRecord V → Bool) (xs : List (SoeRecord V))
      → count q xs ≡ count (λ r. r.written && q r) xs + count (λ r. q r && not r.written) xs
  unfolding count
  count_unwritten q [] = omega arith
  count_unwritten q (x ∷ xs) = ground (arith, count_unwritten q xs)

  has_unwritten_events-any :
      (c : EventClass) (b : EventBuffer V)
      → Stored b
      → has_unwritten_events c b ≡ any (λ r. same_class (r.clazz) c && not r.written) b.events
  unfolding has_unwritten_events num_of_class
  has_unwritten_events-any c b k = ground (
    arith,
    any-count (λ r. same_class (r.clazz) c && not r.written) b.events,
    count_unwritten (λ r. same_class (r.clazz) c) b.events,
    k.total (by_class c),
    k.written (by_class c),
    count-le-length (λ r. same_class (r.clazz) c) b.events,
    length-le b k,
    k.bounded,
  )

  -- In a buffer whose counters are right, UnwrittenClassField has an event class exactly where some
  -- event of the class is not written.
  pub unwritten_class_field-any :
      (c : EventClass) (b : EventBuffer V)
      → Stored b
      → has_event_type (unwritten_class_field b) c
        ≡ any (λ r. same_class (r.clazz) c && not r.written) b.events
  unfolding unwritten_class_field
  unwritten_class_field-any ec1 b k = flags_lem _ _ _ ec1 ∙ has_unwritten_events-any ec1 b k
  unwritten_class_field-any ec2 b k = flags_lem _ _ _ ec2 ∙ has_unwritten_events-any ec2 b k
  unwritten_class_field-any ec3 b k = flags_lem _ _ _ ec3 ∙ has_unwritten_events-any ec3 b k

  loop_stop :
      (match : SoeRecord V → Bool) (choose : SoeRecord V → SoeRecord V) (remaining : ℕ)
      (n : EventCount) (xs : List (SoeRecord V))
      → select_loop match choose remaining 1 1 n xs ≡ (xs, n)
  unfolding select_loop
  loop_stop match choose remaining n [] = refl
  loop_stop match choose remaining n (x ∷ xs) = ground arith

  loop_once :
      (match : SoeRecord V → Bool) (choose : SoeRecord V → SoeRecord V) (remaining : ℕ)
      (n : EventCount) (r : SoeRecord V) (rs : List (SoeRecord V))
      → 0 < remaining
      → match r ≡ true
      → select_loop match choose remaining 1 0 n (r ∷ rs)
        ≡ (choose r ∷ rs, increment n r.clazz r.type)
  unfolding select_loop
  loop_once match choose remaining n r rs left m =
      ground (arith, left, m, loop_stop match choose remaining (increment n r.clazz r.type) rs)

  -- In a buffer whose counters are right, whose oldest event has the type and is selected, and which
  -- has an event of the type that is not selected, a selection of one event of the type chooses the
  -- oldest one once more and nothing else, and counts one selected event more than there are.
  pub select_by_type_twice :
      (t : EventType) (variation : Option ℕ) (b : EventBuffer V) (r : SoeRecord V)
      (rs : List (SoeRecord V))
      → Stored b
      → Selecting b
      → b.events ≡ r ∷ rs
      → same_type r.type t ≡ true
      → r.selected ≡ true
      → count (λ x. x.selected && same_type (x.type) t) b.events
        < count (λ x. same_type (x.type) t) b.events
      → ((select_by_type t 1 variation b).events ≡ choose_variation variation r ∷ rs)
        × (amount (select_by_type t 1 variation b).selected_counts all
            ≡ suc (count (λ x. x.selected && true) (select_by_type t 1 variation b).events))
  unfolding select_by_type num_of_type
  select_by_type_twice t variation b r rs k s e same sel other =
      let remaining = sub32 (b.total_counts.of_type t) (b.selected_counts.of_type t) in
      let left : 0 < remaining = omega (
        arith,
        other,
        k.total (by_type t),
        s.counts (by_type t),
        count-le-length (λ x. same_type (x.type) t) b.events,
        length-le b k,
        k.bounded,
      ) in
      let out =
        ap
          (select_loop (λ x. same_type (x.type) t) (choose_variation variation) remaining 1 0
            b.selected_counts)
          e
        ∙ loop_once (λ x. same_type (x.type) t) (choose_variation variation) remaining
            b.selected_counts r rs left same in
      let C : List (SoeRecord V) → ℕ = count (λ x. x.selected && true) in
      let one : bit (r.selected && true) ≡ 1 = rw sel refl in
      let chosen : bit ((choose_variation variation r).selected && true) ≡ 1 =
        rw ((choose_variation-Selects variation).selects r) refl in
      (
        ap (λ o. o.0) out,
        omega (
          arith,
          ap (λ o. amount (o.1) all) out,
          amount-increment b.selected_counts r.clazz r.type all,
          s.counts all,
          ap C e,
          ap (λ o. C (o.0)) out,
          count-cons (λ x. x.selected && true) r rs,
          count-cons (λ x. x.selected && true) (choose_variation variation r) rs,
          one,
          chosen,
          count-le-length (λ x. x.selected && true) b.events,
          length-le b k,
          k.bounded,
        ),
      )
