-- ===== src/Outstation/EventBuffer.antt =====
-- opendnp3/outstation/EventBuffer.h and EventBuffer.cpp: the events in the order of their arrival, with
-- counters of all of them, of the selected and of the written ones. The list of events stands for
-- openpal/container/LinkedList.h: `add` answers no node where no free node is left, and a run that would
-- use the node then answers none. A loop that the list runs with a callback is a recursion on the list.
use dnp.Prelude.{
  ℕ, zero, suc, Bool, true, false, not, ◌&&◌, ◌||◌, Option, none, some, List, [], ◌∷◌, ◌++◌,
  if◌then◌else◌, ◌==◌, ltb, leb, length,
}
use dnp.App.ClassField
use dnp.App.ClassField.{
  EventType, EventClass, ClassField, ec1, ec2, ec3, binary, analog, counter, frozen_counter,
  double_bit_binary, binary_output_status, analog_output_status, security_stat,
}
use dnp.Outstation.EventCount
use dnp.Outstation.EventCount.{EventCount, same_type, sub32}
use dnp.Outstation.SoeRecord
use dnp.Outstation.SoeRecord.{SoeRecord}
use dnp.Outstation.EventBufferConfig.{EventBufferConfig, get_max_events_for_type, total_events}
pub mod Facts
pub mod Invariant
pub mod Request
pub mod Removal
pub mod Update
pub mod Marking
pub mod Selection
pub mod Clearing
pub mod Unselection
pub mod Reports

pub record EventBuffer (V : Type 0) : Type 0 where
  pub overflow : Bool
  pub config : EventBufferConfig
  pub events : List (SoeRecord V)
  pub total_counts : EventCount
  pub selected_counts : EventCount
  pub written_counts : EventCount

unfoldable pub new_buffer : {V : Type 0} → EventBufferConfig → EventBuffer V
new_buffer config = record {
  overflow = false;
  config = config;
  events = [];
  total_counts = EventCount.cleared;
  selected_counts = EventCount.cleared;
  written_counts = EventCount.cleared;
}

module _ {V : Type 0} where
  -- `LinkedList::IsFull`: no free node is left of the `TotalEvents` ones.
  unfoldable pub is_full : EventBuffer V → Bool
  is_full b = leb (total_events b.config) (length b.events)

  -- `LinkedList::Add` at the end of the list.
  unfoldable pub add : SoeRecord V → EventBuffer V → Option (EventBuffer V)
  add r b = if is_full b then none else some (record b { events = b.events ++ (r ∷ []) })

  -- `RemoveFirst`: the removed record and what stays.
  unfoldable pub remove_first :
      EventType → List (SoeRecord V) → Option (SoeRecord V × List (SoeRecord V))
  remove_first t [] = none
  remove_first t (r ∷ rs) =
      let rest = remove_first t rs in
      if same_type (r.type) t
      then some (r, rs)
      else elim rest [ none ↦ none | some (x, ys) ↦ some (x, r ∷ ys) ]

  unfoldable pub remove_from_counts : SoeRecord V → EventBuffer V → EventBuffer V
  remove_from_counts r b = record b {
    total_counts = EventCount.decrement b.total_counts r.clazz r.type;
    selected_counts =
        if r.selected
        then EventCount.decrement b.selected_counts r.clazz r.type
        else b.selected_counts;
    written_counts =
        if r.written
        then EventCount.decrement b.written_counts r.clazz r.type
        else b.written_counts;
  }

  unfoldable pub remove_oldest_event_of_type : EventType → EventBuffer V → EventBuffer V
  remove_oldest_event_of_type t b = elim (remove_first t b.events) [
    | none ↦ b
    | some (r, rest) ↦ remove_from_counts r (record b { events = rest })
  ]

  -- The end of `UpdateAny`: the new node is at once used.
  unfoldable pub append_event : SoeRecord V → EventBuffer V → Option (EventBuffer V)
  append_event r b = elim (add (SoeRecord.reset r) b) [
    | none ↦ none
    | some b1 ↦
        some (record b1 { total_counts = EventCount.increment b1.total_counts r.clazz r.type })
  ]

  -- `UpdateAny` with the record that its constructor makes of the event.
  unfoldable pub update_any : SoeRecord V → EventBuffer V → Option (EventBuffer V)
  update_any r b =
      let max_for_type = get_max_events_for_type b.config r.type in
      let current_count = EventCount.num_of_type b.total_counts r.type in
      if ltb 0 max_for_type
      then append_event r (
          if leb max_for_type current_count || is_full b
          then remove_oldest_event_of_type r.type (record b { overflow = true })
          else b)
      else some b

  -- The loop of `Unselect`, with the counters of the selected and of the written events.
  unfoldable pub unselect_loop :
      List (SoeRecord V)
      → (selected written : EventCount) → List (SoeRecord V) × EventCount × EventCount
  unselect_loop [] selected written = ([], selected, written)
  unselect_loop (r ∷ rs) selected written =
      let selected1 =
        if r.selected then EventCount.decrement selected r.clazz r.type else selected in
      let written1 = if r.written then EventCount.decrement written r.clazz r.type else written in
      let rest = unselect_loop rs selected1 written1 in
      let r1 = SoeRecord.reset r in
      if ltb 0 (selected1.total)
      then (r1 ∷ rest.0, rest.1, rest.2)
      else (r1 ∷ rs, selected1, written1)

  unfoldable pub unselect : EventBuffer V → EventBuffer V
  unselect b =
      let out = unselect_loop b.events b.selected_counts b.written_counts in
      record b { events = out.0; selected_counts = out.1; written_counts = out.2 }

  -- The loop of `SelectByClass` and of `GenericSelectByType`: records that match are selected and counted.
  unfoldable pub select_loop :
      (SoeRecord V → Bool)
      → (SoeRecord V → SoeRecord V)
      → (remaining max num : ℕ) → EventCount
      → List (SoeRecord V)
      → List (SoeRecord V) × EventCount
  select_loop match choose remaining max num n [] = ([], n)
  select_loop match choose remaining max num n (r ∷ rs) =
      let taken =
        select_loop match choose remaining max (suc num) (EventCount.increment n r.clazz r.type)
          rs in
      let passed = select_loop match choose remaining max num n rs in
      if ltb num remaining && ltb num max
      then (if match r then (choose r ∷ taken.0, taken.1) else (r ∷ passed.0, passed.1))
      else (r ∷ rs, n)

  unfoldable pub select_by_class : ClassField → ℕ → EventBuffer V → EventBuffer V
  select_by_class field max b =
      let remaining =
        sub32 (EventCount.num_of_classes b.total_counts field)
          (EventCount.num_of_classes b.selected_counts field) in
      let out =
        select_loop (λ r. ClassField.has_event_type field (r.clazz)) SoeRecord.select_default
          remaining max 0 b.selected_counts b.events in
      record b { events = out.0; selected_counts = out.1 }

  -- What selects a record: with the variation of the request, or with the record's own.
  unfoldable pub choose_variation : Option ℕ → SoeRecord V → SoeRecord V
  choose_variation none r = SoeRecord.select_default r
  choose_variation (some v) r = SoeRecord.select v r

  -- `GenericSelectByType` and `SelectByType`, with the variation where the request names one.
  unfoldable pub select_by_type : EventType → ℕ → Option ℕ → EventBuffer V → EventBuffer V
  select_by_type t max variation b =
      let remaining =
        sub32 (EventCount.num_of_type b.total_counts t)
          (EventCount.num_of_type b.selected_counts t) in
      let out =
        select_loop (λ r. same_type (r.type) t) (choose_variation variation) remaining max 0
          b.selected_counts b.events in
      record b { events = out.0; selected_counts = out.1 }

  unfoldable pub select_all_by_class : ClassField → EventBuffer V → EventBuffer V
  select_all_by_class field b = select_by_class field 4294967295 b

  unfoldable pub has_any_selection : EventBuffer V → Bool
  has_any_selection b = ltb (b.written_counts.total) (b.selected_counts.total)

  unfoldable pub has_more_unwritten_events : EventBuffer V → Bool
  has_more_unwritten_events b = has_any_selection b

  unfoldable pub record_written : EventClass → EventType → EventBuffer V → EventBuffer V
  record_written c t b = record b { written_counts = EventCount.increment b.written_counts c t }

  unfoldable pub has_unwritten_events : EventClass → EventBuffer V → Bool
  has_unwritten_events c b = ltb 0 (
      sub32 (EventCount.num_of_class b.total_counts c) (EventCount.num_of_class b.written_counts c))

  unfoldable pub unwritten_class_field : EventBuffer V → ClassField
  unwritten_class_field b =
      ClassField.of_flags false (has_unwritten_events ec1 b) (has_unwritten_events ec2 b)
        (has_unwritten_events ec3 b)

  unfoldable pub is_type_overflown : EventType → EventBuffer V → Bool
  is_type_overflown t b =
      let max = get_max_events_for_type b.config t in
      if ltb 0 max then leb max (EventCount.num_of_type b.total_counts t) else false

  unfoldable pub is_any_type_overflown : EventBuffer V → Bool
  is_any_type_overflown b =
      is_type_overflown binary b
      || is_type_overflown double_bit_binary b
      || is_type_overflown binary_output_status b
      || is_type_overflown counter b
      || is_type_overflown frozen_counter b
      || is_type_overflown analog b
      || is_type_overflown analog_output_status b

  unfoldable pub has_enough_space_to_clear_overflow : EventBuffer V → Bool
  has_enough_space_to_clear_overflow b = not (is_full b || is_any_type_overflown b)

  unfoldable pub is_overflown : EventBuffer V → Bool × EventBuffer V
  is_overflown b =
      let b1 =
        if b.overflow && has_enough_space_to_clear_overflow b
        then record b { overflow = false }
        else b in
      (b1.overflow, b1)

  -- The pass of `ClearWritten` over the list.
  unfoldable pub clear_loop : List (SoeRecord V) → EventBuffer V → EventBuffer V
  clear_loop [] b = record b { events = [] }
  clear_loop (r ∷ rs) b =
      let removed = clear_loop rs (remove_from_counts r b) in
      let kept = clear_loop rs b in
      if r.written then removed else record kept { events = r ∷ kept.events }

  unfoldable pub clear_written : EventBuffer V → EventBuffer V
  clear_written b = clear_loop b.events b
