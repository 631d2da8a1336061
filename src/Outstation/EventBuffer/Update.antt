-- ===== src/Outstation/EventBuffer/Update.antt =====
-- What `UpdateAny` does to the events.
use dnp.Prelude.{
  suc, ◌≤◌, ◌<◌, Bool, true, false, ◌||◌, [], ◌∷◌, ◌++◌, if◌then◌else◌, ◌≡◌, refl, length, arith,
  some, Bool-cases, inl, inr, leb, ap, All-append,
}
use dnp.App.ClassField.{EventType}
use dnp.Outstation.EventCount.{by_type, same_type, increment, num_of_type}
use dnp.Outstation.SoeRecord.{SoeRecord, reset}
use dnp.Outstation.EventBufferConfig.{get_max_events_for_type}
use dnp.Outstation.EventBuffer.{
  EventBuffer, remove_oldest_event_of_type, is_full, add, append_event, update_any,
}
use dnp.Outstation.EventBuffer.Removal.{without_first, remove_oldest-Removed}
use dnp.Outstation.EventBuffer.Facts.{same_type_lem, count, has_key, count-append}
use dnp.Outstation.EventBuffer.Invariant.{
  Stored, Selecting, stored, selected, written, full-limits, Counts-added,
}

module _ {V : Type 0} where
  abbrev appended : SoeRecord V → EventBuffer V → EventBuffer V
  appended r b = record b {
    events = b.events ++ (reset r ∷ []);
    total_counts = increment b.total_counts r.clazz r.type;
  }

  not_full :
      (r : SoeRecord V) (b : EventBuffer V)
      → Stored b
      → count (has_key (by_type (r.type))) b.events < get_max_events_for_type b.config r.type
      → is_full b ≡ false
  not_full r b k room = elim (Bool-cases (is_full b)) [
    | inl e ↦ absurd (omega (arith, room, full-limits b r.type k e))
    | inr e ↦ e
  ]

  fits_32 :
      (r : SoeRecord V) (b : EventBuffer V)
      → Stored b
      → count (has_key (by_type (r.type))) b.events < get_max_events_for_type b.config r.type
      → suc (length b.events) < 4294967296
  unfolding is_full
  fits_32 r b k room = ground (arith, not_full r b k room, k.bounded)

  appended_limits :
      (r : SoeRecord V) (b : EventBuffer V)
      → Stored b
      → count (has_key (by_type (r.type))) b.events < get_max_events_for_type b.config r.type
      → (u : EventType)
      → count (has_key (by_type u)) (b.events ++ (reset r ∷ []))
        ≤ get_max_events_for_type b.config u
  unfolding reset count
  appended_limits r b k room u = elim (Bool-cases (same_type (r.type) u)) [
    | inl e ↦ ground (
      arith,
      e,
      ap (λ v. count (has_key (by_type v)) b.events) (same_type_lem r.type u e),
      ap (get_max_events_for_type b.config) (same_type_lem r.type u e),
      room,
      count-append (has_key (by_type u)) b.events (reset r ∷ []),
    )
    | inr e ↦
        ground (arith, e, k.limits u, count-append (has_key (by_type u)) b.events (reset r ∷ []))
  ]

  appended-Stored :
      (r : SoeRecord V) (b : EventBuffer V)
      → Stored b
      → count (has_key (by_type (r.type))) b.events < get_max_events_for_type b.config r.type
      → Stored (appended r b)
  unfolding reset count
  appended-Stored r b k room =
      let fits = fits_32 r b k room in
      record {
        total = Counts-added b.total_counts stored b.events (reset r) fits k.total;
        written = Counts-added b.written_counts written b.events (reset r) fits k.written;
        limits = λ u. appended_limits r b k room u;
        bounded = k.bounded;
      }

  appended-Selecting :
      (r : SoeRecord V) (b : EventBuffer V)
      → Stored b
      → count (has_key (by_type (r.type))) b.events < get_max_events_for_type b.config r.type
      → Selecting b
      → Selecting (appended r b)
  unfolding reset
  appended-Selecting r b k room s =
      let fits = fits_32 r b k room in
      record {
        counts = Counts-added b.selected_counts selected b.events (reset r) fits s.counts;
        written_selected =
            All-append (λ x. x.written ≡ true → x.selected ≡ true) b.events (reset r ∷ [])
              s.written_selected (λ e. e, tt);
      }

-- What becomes of the buffer: where the type is at its limit, or the list full, the oldest event of the type goes,
-- and the new one stands at the end, neither selected nor written.
pub record Updated {V : Type 0} (r : SoeRecord V) (drops : Bool) (b b' : EventBuffer V)
    : Type 0 where
  pub keeps : Stored b'
  pub events :
      b'.events ≡ (if drops then without_first r.type b.events else b.events) ++ (reset r ∷ [])
  pub overflow : b'.overflow ≡ (drops || b.overflow)
  pub config : b'.config ≡ b.config
  pub selecting : Selecting b → Selecting b'

module _ {V : Type 0} where
  update-Updated :
      (r : SoeRecord V) (drops : Bool) (b b1 : EventBuffer V)
      → Stored b1
      → count (has_key (by_type (r.type))) b1.events < get_max_events_for_type b1.config r.type
      → b1.events ≡ (if drops then without_first r.type b.events else b.events)
      → b1.overflow ≡ (drops || b.overflow)
      → b1.config ≡ b.config
      → (Selecting b → Selecting b1)
      → Updated r drops b (appended r b1)
  update-Updated r drops b b1 k room e o c s = record {
    keeps = appended-Stored r b1 k room;
    events = ap (λ xs. xs ++ (reset r ∷ [])) e;
    overflow = o;
    config = c;
    selecting = λ h. appended-Selecting r b1 k room (s h);
  }

  append_event-some :
      (r : SoeRecord V) (b : EventBuffer V)
      → is_full b ≡ false
      → append_event r b ≡ some (appended r b)
  unfolding append_event add
  append_event-some r b e = ground (arith, e)

  -- The guard of the removal is that the type is at its limit, since a full list has every type at its limit.
  guard_lem :
      (r : SoeRecord V) (b : EventBuffer V)
      → Stored b
      → (leb (get_max_events_for_type b.config r.type) (num_of_type b.total_counts r.type)
          || is_full b)
        ≡ leb
            (get_max_events_for_type b.config r.type)
            (count (has_key (by_type (r.type))) b.events)
  unfolding num_of_type
  guard_lem r b k = elim (Bool-cases (is_full b)) [
    | inl e ↦ ground (arith, e, k.total (by_type (r.type)), full-limits b r.type k e)
    | inr e ↦ ground (arith, e, k.total (by_type (r.type)))
  ]

  -- In a buffer whose counters count its events, where no type is above its limit and the limits are
  -- of 16 bits, an event of a type whose limit is not zero is always stored: no missing node is
  -- used. The new event stands at the end, neither selected nor written; the oldest event of its
  -- type goes exactly where the type is at its limit, which also sets the overflow flag; and the
  -- counters count the events again, those of the selection where they did before.
  pub update_any-Updated :
      (r : SoeRecord V) (b : EventBuffer V)
      → Stored b
      → 0 < get_max_events_for_type b.config r.type
      → (b' : EventBuffer V) × (update_any r b ≡ some b')
        × Updated r
            (leb
              (get_max_events_for_type b.config r.type)
              (count (has_key (by_type (r.type))) b.events))
            b
            b'
  unfolding update_any
  update_any-Updated r b k room =
      elim (Bool-cases (
        leb (get_max_events_for_type b.config r.type)
          (count (has_key (by_type (r.type))) b.events))) [
            | inl e ↦
                let b0 : EventBuffer V = record b { overflow = true } in
                let k0 : Stored b0 = record {
                  total = k.total;
                  written = k.written;
                  limits = k.limits;
                  bounded = k.bounded;
                } in
                let cut = remove_oldest-Removed r.type b0 k0 (ground (arith, e, room)) in
                let b1 = remove_oldest_event_of_type r.type b0 in
                let space : count (has_key (by_type (r.type))) b1.events
                    < get_max_events_for_type b1.config r.type =
                  omega (
                    arith,
                    cut.room,
                    k.limits r.type,
                    ap (λ c. get_max_events_for_type c (r.type)) cut.same_config,
                  ) in
                (
                  appended r b1,
                  ground (
                    arith,
                    guard_lem r b k,
                    e,
                    room,
                    append_event-some r b1 (not_full r b1 cut.keeps space),
                  ),
                  rw e (
                      update-Updated r true b b1 cut.keeps space cut.events cut.same_overflow
                        cut.same_config
                        (λ s.
                          cut.selecting
                            (record { counts = s.counts; written_selected = s.written_selected }))),
                )
            | inr e ↦ (
              appended r b,
              ground (
                arith,
                guard_lem r b k,
                e,
                room,
                append_event-some r b (not_full r b k (ground (arith, e))),
              ),
              rw e (update-Updated r false b b k (ground (arith, e)) refl refl refl (λ s. s)),
            )
          ]
