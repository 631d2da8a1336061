-- ===== src/Outstation/EventBuffer/Invariant.antt =====
-- The invariant of the buffer: the counters count the list, and no type has more records than its limit.
use dnp.Prelude.{
  ℕ, suc, ◌+◌, ◌≤◌, ◌<◌, Bool, true, ◌&&◌, List, [], ◌∷◌, ◌++◌, if◌then◌else◌, ◌≡◌, refl, length,
  arith, none, some, All, Option-cases, inl, inr,
}
use dnp.App.ClassField.{EventType}
use dnp.Outstation.EventCount.{
  EventCount, Key, by_type, counted, amount, same_type, increment, decrement, amount-increment,
  amount-decrement,
}
use dnp.Outstation.SoeRecord.{SoeRecord}
use dnp.Outstation.EventBufferConfig.{EventBufferConfig, get_max_events_for_type, total_events}
use dnp.Outstation.EventBuffer.{EventBuffer, remove_first, is_full}
use dnp.Outstation.EventBuffer.Facts.{
  count, has_key, bit, count-append, count-le-length, length_by_type, total_of,
}

-- A group of counters counts the records with a property.
abbrev pub Counts : {V : Type 0} → EventCount → (SoeRecord V → Bool) → List (SoeRecord V) → Type 0
Counts n p events = (k : Key) → amount n k ≡ count (λ r. p r && counted k (r.clazz) (r.type)) events

abbrev pub stored : {V : Type 0} → SoeRecord V → Bool
stored r = true

abbrev pub selected : {V : Type 0} → SoeRecord V → Bool
selected r = r.selected

abbrev pub written : {V : Type 0} → SoeRecord V → Bool
written r = r.written

-- The events and the counters that the removal of an event does not take from the selection.
pub record Stored {V : Type 0} (b : EventBuffer V) : Type 0 where
  pub total : Counts b.total_counts stored b.events
  pub written : Counts b.written_counts written b.events
  pub limits :
      (t : EventType)
      → count (λ r. same_type (r.type) t) b.events ≤ get_max_events_for_type b.config t
  -- eight 16-bit sizes
  pub bounded : total_events b.config ≤ 524280

-- The counters of the selection: a written event is a selected one.
pub record Selecting {V : Type 0} (b : EventBuffer V) : Type 0 where
  pub counts : Counts b.selected_counts selected b.events
  pub written_selected : All (λ r. r.written ≡ true → r.selected ≡ true) b.events

total_limits : (f g : EventType → ℕ) → ((t : EventType) → f t ≤ g t) → total_of f ≤ total_of g
unfolding total_of
total_limits f g h = omega (
  arith,
  h EventType.binary,
  h EventType.double_bit_binary,
  h EventType.analog,
  h EventType.counter,
  h EventType.frozen_counter,
  h EventType.binary_output_status,
  h EventType.analog_output_status,
  h EventType.security_stat,
)

-- Numbers below their limits, with the sum of the limits, are at their limits.
total_tight :
    (f g : EventType → ℕ) (t : EventType)
    → ((u : EventType) → f u ≤ g u)
    → total_of g ≤ total_of f
    → f t ≡ g t
unfolding total_of
total_tight f g EventType.binary h e = omega (
  arith,
  e,
  h EventType.binary,
  h EventType.double_bit_binary,
  h EventType.analog,
  h EventType.counter,
  h EventType.frozen_counter,
  h EventType.binary_output_status,
  h EventType.analog_output_status,
  h EventType.security_stat,
)
total_tight f g EventType.double_bit_binary h e = omega (
  arith,
  e,
  h EventType.binary,
  h EventType.double_bit_binary,
  h EventType.analog,
  h EventType.counter,
  h EventType.frozen_counter,
  h EventType.binary_output_status,
  h EventType.analog_output_status,
  h EventType.security_stat,
)
total_tight f g EventType.analog h e = omega (
  arith,
  e,
  h EventType.binary,
  h EventType.double_bit_binary,
  h EventType.analog,
  h EventType.counter,
  h EventType.frozen_counter,
  h EventType.binary_output_status,
  h EventType.analog_output_status,
  h EventType.security_stat,
)
total_tight f g EventType.counter h e = omega (
  arith,
  e,
  h EventType.binary,
  h EventType.double_bit_binary,
  h EventType.analog,
  h EventType.counter,
  h EventType.frozen_counter,
  h EventType.binary_output_status,
  h EventType.analog_output_status,
  h EventType.security_stat,
)
total_tight f g EventType.frozen_counter h e = omega (
  arith,
  e,
  h EventType.binary,
  h EventType.double_bit_binary,
  h EventType.analog,
  h EventType.counter,
  h EventType.frozen_counter,
  h EventType.binary_output_status,
  h EventType.analog_output_status,
  h EventType.security_stat,
)
total_tight f g EventType.binary_output_status h e = omega (
  arith,
  e,
  h EventType.binary,
  h EventType.double_bit_binary,
  h EventType.analog,
  h EventType.counter,
  h EventType.frozen_counter,
  h EventType.binary_output_status,
  h EventType.analog_output_status,
  h EventType.security_stat,
)
total_tight f g EventType.analog_output_status h e = omega (
  arith,
  e,
  h EventType.binary,
  h EventType.double_bit_binary,
  h EventType.analog,
  h EventType.counter,
  h EventType.frozen_counter,
  h EventType.binary_output_status,
  h EventType.analog_output_status,
  h EventType.security_stat,
)
total_tight f g EventType.security_stat h e = omega (
  arith,
  e,
  h EventType.binary,
  h EventType.double_bit_binary,
  h EventType.analog,
  h EventType.counter,
  h EventType.frozen_counter,
  h EventType.binary_output_status,
  h EventType.analog_output_status,
  h EventType.security_stat,
)

total_max :
    (config : EventBufferConfig) → total_of (get_max_events_for_type config) ≡ total_events config
unfolding total_of total_events get_max_events_for_type
total_max config = omega arith

module _ {V : Type 0} where
  -- The list fits.
  pub length-le : (b : EventBuffer V) → Stored b → length b.events ≤ total_events b.config
  length-le b k = omega (
    arith,
    length_by_type b.events,
    total_max b.config,
    total_limits (λ t. count (has_key (by_type t)) b.events) (get_max_events_for_type b.config)
        k.limits,
  )

  -- A full list has every type at its limit.
  pub full-limits :
      (b : EventBuffer V) (t : EventType)
      → Stored b
      → is_full b ≡ true
      → count (has_key (by_type t)) b.events ≡ get_max_events_for_type b.config t
  unfolding is_full
  full-limits b t k full =
      total_tight (λ u. count (has_key (by_type u)) b.events) (get_max_events_for_type b.config) t
        k.limits (ground (arith, length_by_type b.events, total_max b.config))

  pub Counts-removed :
      (n : EventCount) (p : SoeRecord V → Bool) (xs ys : List (SoeRecord V)) (r : SoeRecord V)
      → ((q : SoeRecord V → Bool) → count q xs ≡ bit (q r) + count q ys)
      → length xs < 4294967296
      → Counts n p xs
      → Counts (if p r then decrement n r.clazz r.type else n) p ys
  Counts-removed n p xs ys r split short h = λ k. ground (
    arith,
    h k,
    amount-decrement n r.clazz r.type k,
    split (λ r. p r && counted k (r.clazz) (r.type)),
    count-le-length (λ r. p r && counted k (r.clazz) (r.type)) xs,
  )

  pub Counts-added :
      (n : EventCount) (p : SoeRecord V → Bool) (xs : List (SoeRecord V)) (r : SoeRecord V)
      → suc (length xs) < 4294967296
      → Counts n p xs
      → Counts (if p r then increment n r.clazz r.type else n) p (xs ++ (r ∷ []))
  unfolding count
  Counts-added n p xs r short h = λ k. ground (
    arith,
    h k,
    amount-increment n r.clazz r.type k,
    count-append (λ r. p r && counted k (r.clazz) (r.type)) xs (r ∷ []),
    count-le-length (λ r. p r && counted k (r.clazz) (r.type)) xs,
  )

  pub remove_first-none :
      (t : EventType) (xs : List (SoeRecord V))
      → remove_first t xs ≡ none
      → count (has_key (by_type t)) xs ≡ 0
  unfolding remove_first count
  remove_first-none t [] e = refl
  remove_first-none t (x ∷ xs) e = ground (arith, e, remove_first-none t xs)

  pub remove_first-some :
      (t : EventType) (xs ys : List (SoeRecord V)) (r : SoeRecord V)
      → remove_first t xs ≡ some (r, ys)
      → (same_type r.type t ≡ true)
        × ((q : SoeRecord V → Bool) → count q xs ≡ bit (q r) + count q ys)
  unfolding remove_first count
  remove_first-some t [] ys r e = absurd (ground arith)
  remove_first-some t (x ∷ xs) ys r e = elim (Option-cases (remove_first t xs)) [
    | inl e' ↦ (ground (arith, e, e'), λ q. ground (arith, e, e'))
    | inr (w, e') ↦ (
      ground (arith, e, e', remove_first-some t xs w.1 w.0 e'),
      λ q. ground (
        arith,
        e,
        e',
        remove_first-some t xs w.1 w.0 e',
        (remove_first-some t xs w.1 w.0 e').1 q,
      ),
    )
  ]
