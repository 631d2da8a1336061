-- ===== src/Outstation/EventBuffer/Request.antt =====
-- The selection of events by the object headers of a read: `SelectMaxCount`, `SelectAll` and `SelectCount` of EventBuffer.cpp.
-- The conversion of the maximum to a signed number and back changes nothing. A variation is the number of its
-- enumeration in opendnp3/gen, and a class is its bit.
use dnp.Prelude.{ℕ, Bool, true, false, Option, none, some, List, [], ◌∷◌}
use dnp.App.ClassField
use dnp.App.ClassField.{
  EventType, binary, analog, counter, frozen_counter, double_bit_binary, binary_output_status,
  analog_output_status, security_stat,
}
use dnp.App.Objects.{gv, find_entry}
use dnp.Outstation.EventBuffer.{EventBuffer, select_by_type, select_by_class}

-- What an object header of a read selects.
pub data Selection : Type 0 where
  events_of : EventType → Option ℕ → Selection
  class_events : ℕ → Selection

-- The switch of `SelectMaxCount`.
abbrev pub selections : List (ℕ × Selection)
selections =
    (gv 2 0, events_of binary none)
    ∷ (gv 2 1, events_of binary (some 0))
    ∷ (gv 2 2, events_of binary (some 1))
    ∷ (gv 2 3, events_of binary (some 2))
    ∷ (gv 4 0, events_of double_bit_binary none)
    ∷ (gv 4 1, events_of double_bit_binary (some 0))
    ∷ (gv 4 2, events_of double_bit_binary (some 1))
    ∷ (gv 4 3, events_of double_bit_binary (some 2))
    ∷ (gv 11 0, events_of binary_output_status none)
    ∷ (gv 11 1, events_of binary_output_status (some 0))
    ∷ (gv 11 2, events_of binary_output_status (some 1))
    ∷ (gv 22 0, events_of counter none)
    ∷ (gv 22 1, events_of counter (some 0))
    ∷ (gv 22 2, events_of counter (some 1))
    ∷ (gv 22 5, events_of counter (some 2))
    ∷ (gv 22 6, events_of counter (some 3))
    ∷ (gv 23 0, events_of frozen_counter none)
    ∷ (gv 23 1, events_of frozen_counter (some 0))
    ∷ (gv 23 2, events_of frozen_counter (some 1))
    ∷ (gv 23 5, events_of frozen_counter (some 2))
    ∷ (gv 23 6, events_of frozen_counter (some 3))
    ∷ (gv 32 0, events_of analog none)
    ∷ (gv 32 1, events_of analog (some 0))
    ∷ (gv 32 2, events_of analog (some 1))
    ∷ (gv 32 3, events_of analog (some 2))
    ∷ (gv 32 4, events_of analog (some 3))
    ∷ (gv 32 5, events_of analog (some 4))
    ∷ (gv 32 6, events_of analog (some 5))
    ∷ (gv 32 7, events_of analog (some 6))
    ∷ (gv 32 8, events_of analog (some 7))
    ∷ (gv 42 0, events_of analog_output_status none)
    ∷ (gv 42 1, events_of analog_output_status (some 0))
    ∷ (gv 42 2, events_of analog_output_status (some 1))
    ∷ (gv 42 3, events_of analog_output_status (some 2))
    ∷ (gv 42 4, events_of analog_output_status (some 3))
    ∷ (gv 42 5, events_of analog_output_status (some 4))
    ∷ (gv 42 6, events_of analog_output_status (some 5))
    ∷ (gv 42 7, events_of analog_output_status (some 6))
    ∷ (gv 42 8, events_of analog_output_status (some 7))
    ∷ (gv 60 2, class_events 2)
    ∷ (gv 60 3, class_events 4)
    ∷ (gv 60 4, class_events 8)
    ∷ (gv 122 0, events_of security_stat none)
    ∷ (gv 122 1, events_of security_stat (some 0))
    ∷ (gv 122 2, events_of security_stat (some 1))
    ∷ []

module _ {V : Type 0} where
  unfoldable pub apply_selection : Selection → ℕ → EventBuffer V → EventBuffer V
  apply_selection (events_of t variation) max b = select_by_type t max variation b
  apply_selection (class_events point_class) max b =
      select_by_class (ClassField.of_point_class point_class) max b

  -- Whether the function is supported for the object, and the buffer.
  unfoldable pub select_max_count : (enumeration max : ℕ) → EventBuffer V → Bool × EventBuffer V
  select_max_count enumeration max b = elim (find_entry enumeration selections) [
    | none ↦ (false, b)
    | some selection ↦ (true, apply_selection selection max b)
  ]

  unfoldable pub select_all : ℕ → EventBuffer V → Bool × EventBuffer V
  select_all enumeration b = select_max_count enumeration 4294967295 b

  unfoldable pub select_count : (enumeration count : ℕ) → EventBuffer V → Bool × EventBuffer V
  select_count enumeration count b = select_max_count enumeration count b
