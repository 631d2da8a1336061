-- ===== src/Outstation/Examples.antt =====
-- A small buffer of events, on which the theorems of the buffer are applied.
use dnp.Prelude.{
  ℕ, suc, ◌<◌, ◌≤◌, All, true, false, ◌&&◌, not, some, [], ◌∷◌, ◌≡◌, refl, arith, leb,
}
use dnp.App.ClassField.{EventType, EventClass, ec1, ec2, binary, of_mask, has_event_type}
use dnp.Outstation.EventCount.{
  Key, all, by_type, by_class, amount, counted, increment, cleared, same_type, same_class,
}
use dnp.Outstation.SoeRecord.{SoeRecord, new_record, select_default}
use dnp.Outstation.EventBufferConfig.{all_types, total_events, get_max_events_for_type}
use dnp.Outstation.EventBuffer.{
  EventBuffer, update_any, select_by_type, select_by_class, choose_variation, clear_written,
  unselect, unwritten_class_field,
}
use dnp.Outstation.EventBuffer.Facts.{count, has_key}
use dnp.Outstation.EventBuffer.Invariant.{Stored, Selecting}
use dnp.Outstation.EventBuffer.Update.{Updated, update_any-Updated}
use dnp.Outstation.EventBuffer.Selection.{Chosen, select_by_type-Chosen, select_by_class-Chosen}
use dnp.Outstation.EventBuffer.Clearing.{Cleared, clear_written-Cleared}
use dnp.Outstation.EventBuffer.Unselection.{Unselected, unselect-Unselected}
use dnp.Outstation.EventBuffer.Reports.{any, unwritten_class_field-any, select_by_type_twice}

abbrev event : ℕ → EventClass → SoeRecord ℕ
event index clazz = new_record binary 1 100 1 index clazz 2

-- Two events of a type that may have two.
abbrev two_events : EventBuffer ℕ
two_events = record {
  overflow = false;
  config = all_types 2;
  events = event 0 ec1 ∷ event 1 ec2 ∷ [];
  total_counts = increment (increment cleared ec1 binary) ec2 binary;
  selected_counts = cleared;
  written_counts = cleared;
}

two_limits :
    (t : EventType)
    → count (λ (r : SoeRecord ℕ). same_type (r.type) t) two_events.events
      ≤ get_max_events_for_type two_events.config t
unfolding count new_record all_types get_max_events_for_type
two_limits EventType.binary = omega arith
two_limits _ = omega arith

two_total :
    (k : Key)
    → amount two_events.total_counts k
      ≡ count (λ (r : SoeRecord ℕ). true && counted k (r.clazz) (r.type)) two_events.events
unfolding count new_record increment cleared
two_total all = refl
two_total (by_type t) = ground arith
two_total (by_class c) = ground arith

two_written :
    (k : Key)
    → amount two_events.written_counts k
      ≡ count (λ (r : SoeRecord ℕ). r.written && counted k (r.clazz) (r.type)) two_events.events
unfolding count new_record cleared
two_written all = refl
two_written (by_type t) = refl
two_written (by_class c) = refl

two_selected :
    (k : Key)
    → amount two_events.selected_counts k
      ≡ count (λ (r : SoeRecord ℕ). r.selected && counted k (r.clazz) (r.type)) two_events.events
unfolding count new_record cleared
two_selected all = refl
two_selected (by_type t) = refl
two_selected (by_class c) = refl

two_events-Stored : Stored two_events
unfolding all_types total_events
two_events-Stored = record {
  total = two_total;
  written = two_written;
  limits = two_limits;
  bounded = omega arith;
}

two_events-Selecting : Selecting two_events
unfolding new_record
two_events-Selecting = record {
  counts = two_selected;
  written_selected = (λ e. absurd (ground (arith, e)), (λ e. absurd (ground (arith, e)), tt));
}

-- The first of them is selected and written.
abbrev half_written : EventBuffer ℕ
half_written = record two_events {
  events = record (event 0 ec1) { selected = true; written = true } ∷ event 1 ec2 ∷ [];
  selected_counts = increment cleared ec1 binary;
  written_counts = increment cleared ec1 binary;
}

half_total :
    (k : Key)
    → amount half_written.total_counts k
      ≡ count (λ (r : SoeRecord ℕ). true && counted k (r.clazz) (r.type)) half_written.events
unfolding count new_record increment cleared
half_total all = refl
half_total (by_type t) = ground arith
half_total (by_class c) = ground arith

half_written_lem :
    (k : Key)
    → amount half_written.written_counts k
      ≡ count (λ (r : SoeRecord ℕ). r.written && counted k (r.clazz) (r.type)) half_written.events
unfolding count new_record increment cleared
half_written_lem all = refl
half_written_lem (by_type t) = ground arith
half_written_lem (by_class c) = ground arith

half_selected :
    (k : Key)
    → amount half_written.selected_counts k
      ≡ count (λ (r : SoeRecord ℕ). r.selected && counted k (r.clazz) (r.type)) half_written.events
unfolding count new_record increment cleared
half_selected all = refl
half_selected (by_type t) = ground arith
half_selected (by_class c) = ground arith

half_limits :
    (t : EventType)
    → count (λ (r : SoeRecord ℕ). same_type (r.type) t) half_written.events
      ≤ get_max_events_for_type half_written.config t
unfolding count new_record all_types get_max_events_for_type
half_limits EventType.binary = omega arith
half_limits _ = omega arith

half_written-Stored : Stored half_written
unfolding all_types total_events
half_written-Stored = record {
  total = half_total;
  written = half_written_lem;
  limits = half_limits;
  bounded = omega arith;
}

half_written-Selecting : Selecting half_written
unfolding new_record
half_written-Selecting = record {
  counts = half_selected;
  written_selected = (λ e. refl, (λ e. absurd (ground (arith, e)), tt));
}

room_for_binary : 0 < get_max_events_for_type two_events.config (event 2 ec1).type
unfolding all_types get_max_events_for_type new_record
room_for_binary = omega arith

nothing_selected :
    All
      (λ (r : SoeRecord ℕ). same_type (r.type) binary ≡ true → r.selected ≡ false)
      two_events.events
unfolding new_record
nothing_selected = (λ e. refl, (λ e. refl, tt))

nothing_selected_of_class :
    All
      (λ (r : SoeRecord ℕ). has_event_type (of_mask 4) (r.clazz) ≡ true → r.selected ≡ false)
      two_events.events
unfolding new_record
nothing_selected_of_class = (λ e. refl, (λ e. refl, tt))

first_is_binary : same_type (event 0 ec1).type binary ≡ true
unfolding new_record
first_is_binary = refl

first_selected : (record (event 0 ec1) { selected = true; written = true }).selected ≡ true
first_selected = refl

one_of_two :
    count (λ (x : SoeRecord ℕ). x.selected && same_type (x.type) binary) half_written.events
    < count (λ (x : SoeRecord ℕ). same_type (x.type) binary) half_written.events
unfolding count new_record
one_of_two = omega arith

-- A third event of the type: the oldest goes.
update_any-Updated_example :
    (b' : EventBuffer ℕ) × (update_any (event 2 ec1) two_events ≡ some b')
    × Updated
        (event 2 ec1)
        (leb
          (get_max_events_for_type two_events.config (event 2 ec1).type)
          (count (has_key (by_type ((event 2 ec1).type))) two_events.events))
        two_events
        b'
update_any-Updated_example =
    update_any-Updated (event 2 ec1) two_events two_events-Stored room_for_binary

select_by_type-Chosen_example :
    Chosen
      (λ (r : SoeRecord ℕ). same_type (r.type) binary)
      (choose_variation (some 1))
      1
      two_events
      (select_by_type binary 1 (some 1) two_events)
select_by_type-Chosen_example =
    select_by_type-Chosen binary 1 (some 1) two_events two_events-Stored two_events-Selecting
      nothing_selected

select_by_class-Chosen_example :
    Chosen
      (λ (r : SoeRecord ℕ). has_event_type (of_mask 4) (r.clazz))
      select_default
      10
      two_events
      (select_by_class (of_mask 4) 10 two_events)
select_by_class-Chosen_example =
    select_by_class-Chosen (of_mask 4) 10 two_events two_events-Stored two_events-Selecting
      nothing_selected_of_class

clear_written-Cleared_example : Cleared half_written (clear_written half_written)
clear_written-Cleared_example = clear_written-Cleared half_written half_written-Stored

unselect-Unselected_example : Unselected half_written (unselect half_written)
unselect-Unselected_example =
    unselect-Unselected half_written half_written-Stored half_written-Selecting

unwritten_class_field-any_example :
    has_event_type (unwritten_class_field half_written) ec1
    ≡ any (λ r. same_class (r.clazz) ec1 && not r.written) half_written.events
unwritten_class_field-any_example = unwritten_class_field-any ec1 half_written half_written-Stored

select_by_type_twice_example :
    ((select_by_type binary 1 (some 1) half_written).events
      ≡ choose_variation (some 1) (record (event 0 ec1) { selected = true; written = true })
        ∷ event 1 ec2
        ∷ [])
    × (amount (select_by_type binary 1 (some 1) half_written).selected_counts all
        ≡ suc (
            count (λ x. x.selected && true) (select_by_type binary 1 (some 1) half_written).events))
select_by_type_twice_example =
    select_by_type_twice binary (some 1) half_written
      (record (event 0 ec1) { selected = true; written = true }) (event 1 ec2 ∷ [])
      half_written-Stored half_written-Selecting refl first_is_binary first_selected one_of_two
