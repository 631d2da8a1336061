-- ===== src/Outstation/EventBuffer/Removal.antt =====
-- What the removal of the oldest event of a type does to the buffer.
use dnp.Prelude.{
  suc, ◌<◌, true, List, [], ◌∷◌, if◌then◌else◌, ◌≡◌, refl, length, arith, none, some, All,
  Bool-cases, Option-cases, inl, inr, subst, sym,
}
use dnp.App.ClassField.{EventType}
use dnp.Outstation.EventCount.{all, by_type, same_type}
use dnp.Outstation.SoeRecord.{SoeRecord}
use dnp.Outstation.EventBuffer.{
  EventBuffer, remove_first, remove_from_counts, remove_oldest_event_of_type,
}
use dnp.Outstation.EventBuffer.Facts.{count, has_key, count_true}
use dnp.Outstation.EventBuffer.Invariant.{
  Stored, Selecting, stored, selected, written, length-le, Counts-removed, remove_first-none,
  remove_first-some,
}

-- The list without its first record of a type.
unfoldable pub without_first : {V : Type 0} → EventType → List (SoeRecord V) → List (SoeRecord V)
without_first t [] = []
without_first t (r ∷ rs) = if same_type r.type t then rs else r ∷ without_first t rs

module _ {V : Type 0} where
  without_first-some :
      (t : EventType) (xs ys : List (SoeRecord V)) (r : SoeRecord V)
      → remove_first t xs ≡ some (r, ys)
      → without_first t xs ≡ ys
  unfolding remove_first without_first
  without_first-some t [] ys r e = absurd (ground arith)
  without_first-some t (x ∷ xs) ys r e = elim (Option-cases (remove_first t xs)) [
    | inl e' ↦ ground (arith, e, e')
    | inr (w, e') ↦ ground (arith, e, e', without_first-some t xs w.1 w.0 e')
  ]

  All-without_first :
      (P : SoeRecord V → Type 0) (t : EventType) (xs : List (SoeRecord V))
      → All P xs
      → All P (without_first t xs)
  unfolding without_first
  All-without_first P t [] h = h
  All-without_first P t (x ∷ xs) h = elim (Bool-cases (same_type (x.type) t)) [
    | inl e ↦ rw e h.1
    | inr e ↦ rw e (h.0, All-without_first P t xs h.1)
  ]

  -- The buffer after the removal of the oldest record of a type that it has.
  pub record Removed (t : EventType) (b b' : EventBuffer V) : Type 0 where
    pub keeps : Stored b'
    pub events : b'.events ≡ without_first t b.events
    pub fewer : suc (length b'.events) ≡ length b.events
    pub room : suc (count (has_key (by_type t)) b'.events) ≡ count (has_key (by_type t)) b.events
    pub same_config : b'.config ≡ b.config
    pub same_overflow : b'.overflow ≡ b.overflow
    pub selecting : Selecting b → Selecting b'

  removal-Removed :
      (t : EventType) (b : EventBuffer V) (r : SoeRecord V) (ys : List (SoeRecord V))
      → Stored b
      → remove_first t b.events ≡ some (r, ys)
      → Removed t b (remove_from_counts r (record b { events = ys }))
  unfolding remove_from_counts
  removal-Removed t b r ys k e =
      let cut = remove_first-some t b.events ys r e in
      let short = length-le b k in
      let cut_events = sym (without_first-some t b.events ys r e) in
      let cut_length : suc (length ys) ≡ length b.events =
        ground (arith, cut.1 (has_key all), count_true b.events, count_true ys) in
      record {
        keeps = record {
          total =
              Counts-removed b.total_counts stored b.events ys r cut.1
                (omega (arith, short, k.bounded)) k.total;
          written =
              Counts-removed b.written_counts written b.events ys r cut.1
                (omega (arith, short, k.bounded)) k.written;
          limits = λ u. omega (arith, k.limits u, cut.1 (has_key (by_type u)));
          bounded = k.bounded;
        };
        events = cut_events;
        fewer = cut_length;
        room = ground (arith, cut.0, cut.1 (has_key (by_type t)));
        same_config = refl;
        same_overflow = refl;
        selecting = λ s. record {
          counts =
              Counts-removed b.selected_counts selected b.events ys r cut.1
                (omega (arith, short, k.bounded)) s.counts;
          written_selected =
              subst (All (λ x. x.written ≡ true → x.selected ≡ true)) (sym cut_events) (
                All-without_first (λ x. x.written ≡ true → x.selected ≡ true) t b.events
                  s.written_selected);
        };
      }

  pub remove_oldest-Removed :
      (t : EventType) (b : EventBuffer V)
      → Stored b
      → 0 < count (has_key (by_type t)) b.events
      → Removed t b (remove_oldest_event_of_type t b)
  unfolding remove_oldest_event_of_type
  remove_oldest-Removed t b k some_there = elim (Option-cases (remove_first t b.events)) [
    | inl e ↦ absurd (ground (arith, remove_first-none t b.events e))
    | inr (w, e) ↦
        subst
          (λ o. Removed t b (elim o [
            | none ↦ b
            | some (r, rest) ↦ remove_from_counts r (record b { events = rest })
          ]))
          (sym e) (removal-Removed t b w.0 w.1 k e)
  ]
