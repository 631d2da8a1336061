-- ===== src/Outstation/EventBuffer/Clearing.antt =====
-- What `ClearWritten` does when a response has been confirmed.
use dnp.Prelude.{
  ◌+◌, ◌≤◌, Bool, true, ◌&&◌, List, [], ◌∷◌, if◌then◌else◌, ◌≡◌, refl, arith, All, sym, ap, ◌∙◌,
  if_intro, subst,
}
use dnp.Outstation.EventCount.{
  EventCount, Key, counted, amount, amount-decrement, same_type, decrement,
}
use dnp.Outstation.SoeRecord.{SoeRecord}
use dnp.Outstation.EventBufferConfig.{get_max_events_for_type, total_events}
use dnp.Outstation.EventBuffer.{EventBuffer, remove_from_counts, clear_loop, clear_written}
use dnp.Outstation.EventBuffer.Facts.{count, bit, count_nil, count-cons, count-le-length}
use dnp.Outstation.EventBuffer.Invariant.{
  Counts, Stored, Selecting, stored, selected, written, length-le,
}

-- The records that are not written.
unfoldable pub unwritten : {V : Type 0} → List (SoeRecord V) → List (SoeRecord V)
unwritten [] = []
unwritten (r ∷ rs) = if r.written then unwritten rs else r ∷ unwritten rs

module _ {V : Type 0} where
  clear_loop-events :
      (xs : List (SoeRecord V)) (b : EventBuffer V) → (clear_loop xs b).events ≡ unwritten xs
  unfolding clear_loop unwritten
  clear_loop-events [] b = refl
  clear_loop-events (x ∷ xs) b =
      ground (arith, clear_loop-events xs b, clear_loop-events xs (remove_from_counts x b))

  clear_loop-config :
      (xs : List (SoeRecord V)) (b : EventBuffer V) → (clear_loop xs b).config ≡ b.config
  unfolding clear_loop remove_from_counts
  clear_loop-config [] b = refl
  clear_loop-config (x ∷ xs) b =
      ground (arith, clear_loop-config xs b, clear_loop-config xs (remove_from_counts x b))

  count-unwritten-le :
      (p : SoeRecord V → Bool) (xs : List (SoeRecord V)) → count p (unwritten xs) ≤ count p xs
  unfolding count unwritten
  count-unwritten-le p [] = omega arith
  count-unwritten-le p (x ∷ xs) = ground (arith, count-unwritten-le p xs)

  count-unwritten :
      (p : SoeRecord V → Bool) (xs : List (SoeRecord V))
      → count p (unwritten xs) + count (λ r. r.written && p r) xs ≡ count p xs
  unfolding count unwritten
  count-unwritten p [] = omega arith
  count-unwritten p (x ∷ xs) = ground (arith, count-unwritten p xs)

  All-unwritten :
      (P : SoeRecord V → Type 0) (xs : List (SoeRecord V)) → All P xs → All P (unwritten xs)
  unfolding unwritten
  All-unwritten P [] h = h
  All-unwritten P (x ∷ xs) h =
      if_intro (x.written) (All P) (λ e. All-unwritten P xs h.1)
        (λ e. (h.0, All-unwritten P xs h.1))

-- A group of the buffer's counters that counts the records with a property.
module _ {V : Type 0} (counts : EventBuffer V → EventCount) (p : SoeRecord V → Bool)
    (removed : (r : SoeRecord V) (b : EventBuffer V)
      → counts (remove_from_counts r b)
        ≡ (if p r then decrement (counts b) r.clazz r.type else counts b))
    (kept : (xs : List (SoeRecord V)) (b : EventBuffer V)
      → counts (record b { events = xs }) ≡ counts b) where
  amount-removed :
      (x : SoeRecord V) (b : EventBuffer V) (k : Key)
      → bit (p x && counted k x.clazz x.type) ≤ amount (counts b) k
      → amount (counts b) k ≤ 524280
      → amount (counts (remove_from_counts x b)) k + bit (p x && counted k x.clazz x.type)
        ≡ amount (counts b) k
  amount-removed x b k low high =
      ground
        (arith, ap (λ n. amount n k) (removed x b), amount-decrement (counts b) x.clazz x.type k)

  clear_loop-amount :
      (xs : List (SoeRecord V)) (b : EventBuffer V) (k : Key)
      → count (λ r. p r && counted k (r.clazz) (r.type)) xs ≤ amount (counts b) k
      → amount (counts b) k ≤ 524280
      → amount (counts (clear_loop xs b)) k
          + count (λ r. r.written && (p r && counted k (r.clazz) (r.type))) xs
        ≡ amount (counts b) k
  unfolding clear_loop
  clear_loop-amount [] b k low high = omega (
    arith,
    ap (λ n. amount n k) (kept [] b),
    count_nil (λ r. r.written && (p r && counted k (r.clazz) (r.type))),
  )
  clear_loop-amount (x ∷ xs) b k low high =
      let q : SoeRecord V → Bool = λ r. p r && counted k (r.clazz) (r.type) in
      let P : EventBuffer V → Type 0 =
        λ c. amount (counts c) k + count (λ r. r.written && q r) (x ∷ xs) ≡ amount (counts b) k in
      let all_here = count-cons q x xs in
      let written_here = count-cons (λ r. r.written && q r) x xs in
      if_intro (x.written) P
        (λ e.
          let after = amount-removed x b k (omega (arith, low, all_here)) high in
          let one : bit (x.written && q x) ≡ bit (q x) = rw e refl in
          omega (
            arith,
            low,
            high,
            after,
            one,
            all_here,
            written_here,
            clear_loop-amount xs (remove_from_counts x b) k (omega (arith, low, after, all_here))
                (omega (arith, high, after)),
          ))
        (λ e.
          let one : bit (x.written && q x) ≡ 0 = rw e refl in
          omega (
            arith,
            low,
            one,
            written_here,
            ap (λ n. amount n k) (kept (x ∷ (clear_loop xs b).events) (clear_loop xs b)),
            clear_loop-amount xs b k (omega (arith, low, all_here)) high,
          ))

  clear_written-Counts :
      (b : EventBuffer V)
      → Stored b
      → Counts (counts b) p b.events
      → Counts (counts (clear_written b)) p (clear_written b).events
  unfolding clear_written
  clear_written-Counts b k h = λ key. omega (
    arith,
    h key,
    k.bounded,
    length-le b k,
    count-le-length (λ r. p r && counted key (r.clazz) (r.type)) b.events,
    clear_loop-amount b.events b key (omega (arith, h key)) (
        omega (
          arith,
          h key,
          k.bounded,
          length-le b k,
          count-le-length (λ r. p r && counted key (r.clazz) (r.type)) b.events,
        )),
    count-unwritten (λ r. p r && counted key (r.clazz) (r.type)) b.events,
    ap (count (λ r. p r && counted key (r.clazz) (r.type))) (clear_loop-events b.events b),
  )

-- What the confirmation of a response leaves: the events that are not written, in their order.
pub record Cleared {V : Type 0} (b b' : EventBuffer V) : Type 0 where
  pub events : b'.events ≡ unwritten b.events
  pub keeps : Stored b'
  pub none_written : (k : Key) → amount b'.written_counts k ≡ 0
  pub selecting : Selecting b → Selecting b'

module _ {V : Type 0} where
  count_written-unwritten :
      (p : SoeRecord V → Bool) (xs : List (SoeRecord V))
      → count (λ r. r.written && p r) (unwritten xs) ≡ 0
  unfolding count unwritten
  count_written-unwritten p [] = refl
  count_written-unwritten p (x ∷ xs) = ground (arith, count_written-unwritten p xs)

  -- In a buffer whose counters of all and of the written events are right, ClearWritten leaves
  -- exactly the events that are not written, in their order, with counters that are right again and
  -- none written; the counters of the selection stay right where they were.
  pub clear_written-Cleared : (b : EventBuffer V) → Stored b → Cleared b (clear_written b)
  unfolding clear_written remove_from_counts
  clear_written-Cleared b k =
      let events = clear_loop-events b.events b in
      let written_now =
        clear_written-Counts (λ c. c.written_counts) written (λ r c. refl) (λ xs c. refl) b k
          k.written in
      record {
        events = events;
        keeps = record {
          total =
              clear_written-Counts (λ c. c.total_counts) stored (λ r c. refl) (λ xs c. refl) b k
                k.total;
          written = written_now;
          limits = λ t. omega (
            arith,
            k.limits t,
            ap (count (λ r. same_type (r.type) t)) events,
            count-unwritten-le (λ r. same_type (r.type) t) b.events,
            ap (λ c. get_max_events_for_type c t) (clear_loop-config b.events b),
          );
          bounded =
              subst (λ c. total_events c ≤ 524280) (sym (clear_loop-config b.events b)) k.bounded;
        };
        none_written = λ key.
            written_now key
            ∙ ap (count (λ r. r.written && counted key (r.clazz) (r.type))) events
            ∙ count_written-unwritten (λ r. counted key (r.clazz) (r.type)) b.events;
        selecting = λ s. record {
          counts =
              clear_written-Counts (λ c. c.selected_counts) selected (λ r c. refl) (λ xs c. refl) b
                k s.counts;
          written_selected = subst (All (λ r. r.written ≡ true → r.selected ≡ true)) (sym events) (
              All-unwritten (λ r. r.written ≡ true → r.selected ≡ true) b.events
                s.written_selected);
        };
      }
