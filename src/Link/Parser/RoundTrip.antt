-- ===== src/Link/Parser/RoundTrip.antt =====
-- A frame that was formatted is parsed back.
pub mod Steps
use dnp.Prelude.{
  ℕ, zero, suc, ◌+◌, ◌-◌, ◌≤◌, ◌<◌, ◌≡◌, refl, sym, ap, ◌∙◌, true, false, some, List, [], ◌∷◌, ◌++◌,
  if◌then◌else◌, arith, length, take, drop, get_or, write_at, lt→ltb, take-append, take_all,
  append-nil, length-write_at, length-take,
}
use dnp.Link.Crc.{is_correct_crc, add_crc}
use dnp.Link.Header.{
  LinkHeader, LinkHeaderFields, read_header, write_header, header_bytes, header_fields,
  valid_length,
}
use dnp.Link.HeaderLaws.{read-write_header}
use dnp.Link.Frame.{
  calc_frame_size, calc_user_data_size, write_user_data, validate_body_crc, read_blocks,
}
use dnp.Link.Blocks.{is_correct_crc-add_crc, length-write_blocks, validate_blocks-write_blocks}
use dnp.Link.InPlace.{Moved, extract, extract-write_blocks, read_blocks-Moved}
use dnp.Link.Validation.{user_data_length, validate_function_code, validate_payload}
use dnp.Link.Buffer.{
  ShiftableBuffer, num_bytes_read, read_buffer, advance_write, shift, sync, sync_loop,
}
use dnp.Link.Parser.{
  find_sync, read_header_state, read_body, complete, LinkLayerParser, parse_sync, parse_header,
  parse_body, read_frame_header, validate_header_parameters, validate_body, transfer_user_data,
  parse_one_step, state_eq, parse_until_complete, pushed_frame, push_frame, push_frames, on_read,
  fill, receive, step_fuel, frame_fuel,
}
use dnp.Link.Parser.RoundTrip.Steps.{
  Accepted, frame_bytes, Holding, size-bound, length-frame_bytes, frame_size-le, step_sync,
  step_header, step_body, pushed,
}

step_complete : (p : LinkLayerParser) → p.state ≡ complete → parse_one_step p ≡ p
unfolding parse_one_step
step_complete p e = ground (arith, e)

push_frames-more :
    (fuel : ℕ) (p p' p'' : LinkLayerParser) (frames : List (LinkHeaderFields × List ℕ))
    → parse_until_complete step_fuel p ≡ some p'
    → p'.state ≡ complete
    → push_frames fuel (push_frame p') ≡ some (p'', frames)
    → push_frames (suc fuel) p ≡ some (p'', pushed_frame p' ∷ frames)
unfolding push_frames
push_frames-more fuel p p' p'' frames e s r = ground (arith, e, s, r)

push_frames-stop :
    (fuel : ℕ) (p p' : LinkLayerParser)
    → parse_until_complete step_fuel p ≡ some p'
    → state_eq p'.state complete ≡ false
    → push_frames (suc fuel) p ≡ some (p', [])
unfolding push_frames
push_frames-stop fuel p p' e s = ground (arith, e, s)

step_idle :
    (p : LinkLayerParser)
    → p.state ≡ find_sync
    → num_bytes_read p.buffer < 10
    → parse_one_step p ≡ p
unfolding parse_one_step parse_sync
step_idle p e h = ground (arith, e, h)

until_more :
    (fuel : ℕ) (p p' : LinkLayerParser)
    → parse_one_step p ≡ p'
    → state_eq p'.state p.state ≡ false
    → parse_until_complete (suc fuel) p ≡ parse_until_complete fuel p'
unfolding parse_until_complete
until_more fuel p p' e s =
    ap (λ q. if state_eq q.state p.state then some q else parse_until_complete fuel q) e
    ∙ ap (λ b. if b then some p' else parse_until_complete fuel p') s

until_done :
    (fuel : ℕ) (p p' : LinkLayerParser)
    → parse_one_step p ≡ p'
    → state_eq p'.state p.state ≡ true
    → parse_until_complete (suc fuel) p ≡ some p'
unfolding parse_until_complete
until_done fuel p p' e s =
    ap (λ q. if state_eq q.state p.state then some q else parse_until_complete fuel q) e
    ∙ ap (λ b. if b then some p' else parse_until_complete fuel p') s

module _ (p : LinkLayerParser) (h : LinkHeader) (payload : List ℕ) (a : Accepted h payload)
    (c : Holding p h payload) where
  with_header : LinkLayerParser
  with_header = record p {
    header = h;
    frame_size = calc_frame_size (length payload);
    state = read_body;
  }

  completed : LinkLayerParser
  unfolding with_header
  completed = record (transfer_user_data with_header) { state = complete }

  held : (q : LinkLayerParser) → q.buffer ≡ p.buffer → Holding q h payload
  held q e = record {
    tail = c.tail;
    memory = ap (λ (b : ShiftableBuffer). b.bytes) e ∙ c.memory;
    start = ap (λ (b : ShiftableBuffer). b.read_pos) e ∙ c.start;
    whole = ap (λ (b : ShiftableBuffer). b.write_pos) e ∙ c.whole;
    large = ap (λ (b : ShiftableBuffer). length b.bytes) e ∙ c.large;
  }

  until_completed :
      (fuel : ℕ)
      → p.state ≡ find_sync
      → parse_until_complete (suc (suc (suc (suc fuel)))) p ≡ some completed
  unfolding completed with_header
  until_completed fuel e =
      until_more (suc (suc (suc fuel))) p _ (step_sync p h payload a c e)
        (ap (λ s. state_eq read_header_state s) e)
      ∙ until_more (suc (suc fuel)) _ _
          (step_header (record p { state = read_header_state }) h payload a (held _ refl) refl) refl
      ∙ until_more (suc fuel) _ _ (step_body with_header h payload a (held _ refl) refl refl refl)
          refl
      ∙ until_done fuel completed completed (step_complete completed refl) refl

  completed-header : pushed_frame completed ≡ (header_fields h, payload)
  unfolding completed with_header
  completed-header = pushed with_header h payload a (held _ refl) refl c.start

  -- Behind the frame there is nothing to read, and the parser stays where it is.
  idle_behind :
      (fuel : ℕ)
      → parse_until_complete (suc fuel) (push_frame completed) ≡ some (push_frame completed)
  unfolding completed with_header push_frame transfer_user_data
  idle_behind fuel = until_done fuel _ _ (step_idle _ refl (omega (arith, c.start, c.whole))) refl

  push_frames-completed :
      p.state ≡ find_sync
      → push_frames frame_fuel p ≡ some (push_frame completed, (header_fields h, payload) ∷ [])
  unfolding completed push_frame
  push_frames-completed e =
      push_frames-more 292 p completed (push_frame completed) [] (until_completed 1196 e) refl
        (push_frames-stop 291 _ _ (idle_behind 1199) refl)
      ∙ ap (λ d. some (push_frame completed, d ∷ [])) completed-header

-- A parser that stands at the front of its buffer, with nothing to read.
pub record Fresh (p : LinkLayerParser) : Type 0 where
  pub searches : p.state ≡ find_sync
  pub start : p.buffer.read_pos ≡ 0
  pub empty : p.buffer.write_pos ≡ 0
  pub large : length p.buffer.bytes ≡ 292

behind-Fresh :
    (p : LinkLayerParser) (h : LinkHeader) (payload : List ℕ) (a : Accepted h payload)
    (c : Holding p h payload)
    → let q = push_frame (completed p h payload a c) in Fresh (record q { buffer = shift q.buffer })
unfolding push_frame completed with_header transfer_user_data shift
behind-Fresh p h payload a c =
    let q = push_frame (completed p h payload a c) in
    record {
      searches = refl;
      start = refl;
      empty = omega (arith, c.start, c.whole);
      large =
          length-write_at 0 (read_buffer q.buffer) q.buffer.bytes (
            omega (
              arith,
              c.start,
              c.whole,
              length-take (num_bytes_read q.buffer) (drop q.buffer.read_pos q.buffer.bytes),
            ))
          ∙ (read_blocks-Moved (h.length - 5) p.buffer.bytes (p.buffer.read_pos + 10) 0
              (h.length - 5) (omega arith) (omega arith)
              (omega (
                arith,
                c.start,
                c.large,
                a.counted,
                a.short,
                size-bound (h.length - 5) (omega (arith, a.counted, a.short)),
              ))).size
          ∙ c.large;
    }

module _ (p : LinkLayerParser) (h : LinkHeader) (payload : List ℕ) (a : Accepted h payload)
    (f : Fresh p) where
  filled : LinkLayerParser
  filled =
      let q = fill (frame_bytes h payload) p in
      record q { buffer = advance_write (length (frame_bytes h payload)) q.buffer }

  filled-Holding : Holding filled h payload
  unfolding filled fill advance_write
  filled-Holding = record {
    tail = drop (0 + length (frame_bytes h payload)) p.buffer.bytes;
    memory = ap (λ n. write_at n (frame_bytes h payload) p.buffer.bytes) f.empty;
    start = f.start;
    whole = omega (arith, f.empty, length-frame_bytes h payload a);
    large =
        length-write_at p.buffer.write_pos (frame_bytes h payload) p.buffer.bytes (
          omega
            (arith, f.empty, f.large, length-frame_bytes h payload a, frame_size-le h payload a))
        ∙ f.large;
  }

  -- A parser with nothing to read that receives the bytes of a frame hands on the frame's header and its
  -- payload, and nothing else, and has nothing to read again. The header is one that the parser accepts
  -- (its length is five more than the payload's, its function's flags and payload are as the function
  -- requires), and the payload has at most 250 bytes.
  pub receive-frame_bytes :
      (q : LinkLayerParser) × (receive (frame_bytes h payload) p
        ≡ some (q, (header_fields h, payload) ∷ []))
      × Fresh q
  unfolding receive on_read filled
  receive-frame_bytes =
      let q = push_frame (completed filled h payload a filled-Holding) in
      (
        record q { buffer = shift q.buffer },
        rw (push_frames-completed filled h payload a filled-Holding f.searches, on_read) refl,
        behind-Fresh filled h payload a filled-Holding,
      )
