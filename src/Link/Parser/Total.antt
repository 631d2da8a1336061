-- ===== src/Link/Parser/Total.antt =====
-- The parser's loops end, the parser can always be given more bytes, and each frame that it passes on
-- is well formed.
use dnp.Prelude.{
  ℕ, zero, suc, ◌-◌, ◌≤◌, ◌<◌, ◌≡◌, ◌≢◌, refl, ◌∙◌, ◌⊎◌, inl, inr, Bool, true, false, some, List,
  [], ◌∷◌, if◌then◌else◌, arith, length, drop, All, Bool-cases, length-write_at, length-take,
  All-take, All-drop,
}
use dnp.Link.Function.{
  LinkFunction, is_user_data, pri_reset_link_states, pri_test_link_states, pri_confirmed_user_data,
  pri_unconfirmed_user_data, pri_request_link_status, sec_ack, sec_nack, sec_link_status,
  sec_not_supported, invalid,
}
use dnp.Link.Header.{LinkHeaderFields, header_fields, get_func_enum, is_pri_to_sec}
use dnp.Link.Validation.{
  validate_function_code, validate_payload, valid_pri_function, valid_sec_function,
}
use dnp.Link.Buffer.{
  ShiftableBuffer, num_bytes_read, num_write_bytes, read_buffer, advance_read, advance_write, shift,
}
use dnp.Link.Parser.{
  State, find_sync, read_header_state, read_body, complete, LinkLayerParser, parse_one_step,
  state_eq, parse_until_complete, pushed_frame, push_frame, push_frames, on_read, receive, fill,
  step_fuel, frame_fuel,
}
use dnp.Link.Parser.Invariant.{
  Byte, BufferOk, Framed, Sound, rank, measure, Waiting, parse_one_step-Stepped, write_at-Byte,
  frame_size-bounds,
}

state_eq-true : (s t : State) → state_eq s t ≡ true → s ≡ t
state_eq-true find_sync find_sync h = refl
state_eq-true find_sync read_header_state h = cc
state_eq-true find_sync read_body h = cc
state_eq-true find_sync complete h = cc
state_eq-true read_header_state find_sync h = cc
state_eq-true read_header_state read_header_state h = refl
state_eq-true read_header_state read_body h = cc
state_eq-true read_header_state complete h = cc
state_eq-true read_body find_sync h = cc
state_eq-true read_body read_header_state h = cc
state_eq-true read_body read_body h = refl
state_eq-true read_body complete h = cc
state_eq-true complete find_sync h = cc
state_eq-true complete read_header_state h = cc
state_eq-true complete read_body h = cc
state_eq-true complete complete h = refl

-- Where `ParseUntilComplete` stops.
record Stopped (p p' : LinkLayerParser) : Type 0 where
  sound : Sound p'.state p'
  waiting : Waiting p'.state p'
  fewer : num_bytes_read p'.buffer ≤ num_bytes_read p.buffer

until_stops :
    (fuel : ℕ) (p : LinkLayerParser)
    → Sound p.state p
    → measure p.state p < fuel
    → (p' : LinkLayerParser) × (parse_until_complete fuel p ≡ some p') × Stopped p p'
unfolding parse_until_complete
until_stops zero p v h = absurd (omega arith)
until_stops (suc fuel) p v h =
    let r = parse_one_step-Stepped p v in
    let ih = λ (le : measure (parse_one_step p).state (parse_one_step p) < fuel).
      until_stops fuel (parse_one_step p) r.sound le in
    elim (Bool-cases (state_eq (parse_one_step p).state p.state)) [
      | inl same ↦ (
        parse_one_step p,
        rw same,
        record { sound = r.sound; waiting = r.ends same; fewer = r.fewer },
      )
      | inr other ↦
          let (p', e, t) = ih (omega (arith, r.falls other)) in
          (
            p',
            rw other e,
            record {
              sound = t.sound;
              waiting = t.waiting;
              fewer = omega (arith, t.fewer, r.fewer);
            },
          )
    ]

-- The flags that each function requires: FCV exactly for those that count frames, and no FCB from the
-- secondary station.
abbrev pub FlagsOk : LinkFunction → LinkHeaderFields → Type 0
FlagsOk pri_confirmed_user_data f = f.fcvdfc ≡ true
FlagsOk pri_test_link_states f = f.fcvdfc ≡ true
FlagsOk pri_unconfirmed_user_data f = f.fcvdfc ≡ false
FlagsOk pri_reset_link_states f = f.fcvdfc ≡ false
FlagsOk pri_request_link_status f = f.fcvdfc ≡ false
FlagsOk sec_ack f = f.fcb ≡ false
FlagsOk sec_nack f = f.fcb ≡ false
FlagsOk sec_link_status f = f.fcb ≡ false
FlagsOk sec_not_supported f = f.fcb ≡ false
FlagsOk invalid f = ⊥

-- A payload of 1 to 250 bytes goes with the functions that carry user data, and with no other.
abbrev pub PayloadOk : LinkFunction → List ℕ → Type 0
PayloadOk f data' =
    ((is_user_data f ≡ true) × (0 < length data') × (length data' ≤ 250))
    ⊎ ((is_user_data f ≡ false) × (length data' ≡ 0))

pub record WellFormed (frame : LinkHeaderFields × List ℕ) : Type 0 where
  pub flags : FlagsOk frame.0.func frame.0
  pub payload : PayloadOk frame.0.func frame.1
  pub addresses : (frame.0.dest < 65536) × (frame.0.src < 65536)

flags_of_valid :
    (func : LinkFunction) (h : LinkHeaderFields) (pri : Bool)
    → (if pri then valid_pri_function func h.fcvdfc else valid_sec_function func h.fcb) ≡ true
    → FlagsOk func h
flags_of_valid pri_confirmed_user_data h pri e = ground arith
flags_of_valid _ h pri e = ground arith

pushed_frame-WellFormed :
    (p : LinkLayerParser)
    → Framed p
    → length p.user_data ≡ p.header.length - 5
    → WellFormed (pushed_frame p)
unfolding pushed_frame header_fields
pushed_frame-WellFormed p f e = record {
  flags =
      flags_of_valid (get_func_enum p.header) (header_fields p.header) (is_pri_to_sec p.header)
        (unfold validate_function_code in f.accepted);
  payload = unfold validate_payload in ground (arith, f.payload, f.low, f.high);
  addresses = f.addresses;
}

push_frame-Sound :
    (p : LinkLayerParser)
    → BufferOk p.buffer
    → Framed p
    → p.frame_size ≤ num_bytes_read p.buffer
    → Sound find_sync (push_frame p)
      × (num_bytes_read (push_frame p).buffer < num_bytes_read p.buffer)
unfolding push_frame advance_read
push_frame-Sound p v f h = ground (arith, frame_size-bounds p f)

-- The end of the loop of `OnRead`.
record Pushed (p' : LinkLayerParser) (frames : List (LinkHeaderFields × List ℕ)) : Type 0 where
  sound : Sound p'.state p'
  unfinished : p'.state ≢ complete
  waiting : Waiting p'.state p'
  formed : All WellFormed frames

Pushes : ℕ → LinkLayerParser → Type 0
Pushes fuel p =
    (p' : LinkLayerParser) × (frames : List (LinkHeaderFields × List ℕ)) × (push_frames fuel p
      ≡ some (p', frames))
    × Pushed p' frames

Pushes-stop :
    (fuel : ℕ) (p p' : LinkLayerParser)
    → parse_until_complete step_fuel p ≡ some p'
    → state_eq p'.state complete ≡ false
    → Sound p'.state p'
    → Waiting p'.state p'
    → Pushes (suc fuel) p
unfolding Pushes push_frames
Pushes-stop fuel p p' e other v w = (
  p',
  [],
  rw (e, push_frames, other, push_frames) refl,
  record { sound = v; unfinished = λ c. ground (arith, other); waiting = w; formed = tt },
)

Pushes-more :
    (fuel : ℕ) (p p' : LinkLayerParser)
    → parse_until_complete step_fuel p ≡ some p'
    → state_eq p'.state complete ≡ true
    → WellFormed (pushed_frame p')
    → Pushes fuel (push_frame p')
    → Pushes (suc fuel) p
unfolding Pushes push_frames
Pushes-more fuel p p' e done w (p'', frames, rest, r) = (
  p'',
  pushed_frame p' ∷ frames,
  rw (e, push_frames, done, push_frames, rest, push_frames) refl,
  record {
    sound = r.sound;
    unfinished = r.unfinished;
    waiting = r.waiting;
    formed = (w, r.formed);
  },
)

rank-le : (s : State) → rank s ≤ 3
rank-le find_sync = omega arith
rank-le read_header_state = omega arith
rank-le read_body = omega arith
rank-le complete = omega arith

pushes :
    (fuel : ℕ) (p : LinkLayerParser)
    → Sound p.state p
    → num_bytes_read p.buffer < fuel
    → Pushes fuel p
pushes zero p v h = absurd (omega arith)
pushes (suc fuel) p v h =
    let (p', e, t) = until_stops step_fuel p v (omega (arith, v.ok.top, rank-le p.state)) in
    let next =
      λ (v' : Sound find_sync (push_frame p')) (le : num_bytes_read (push_frame p').buffer < fuel).
        pushes fuel (push_frame p') (push_frame-state p' v') le in
    elim (Bool-cases (state_eq p'.state complete)) [
      | inl done ↦
          let (framed, whole, len) = t.sound.ready (state_eq-true p'.state complete done) in
          let (v', fewer) = push_frame-Sound p' t.sound.ok framed whole in
          Pushes-more fuel p p' e done (pushed_frame-WellFormed p' framed len)
            (next v' (omega (arith, fewer, t.fewer)))
      | inr other ↦ Pushes-stop fuel p p' e other t.sound t.waiting
    ]
  where
    push_frame-state :
        (p' : LinkLayerParser)
        → Sound find_sync (push_frame p')
        → Sound (push_frame p').state (push_frame p')
    push_frame-state p' v' = unfold push_frame in v'

-- Where a call of `OnRead` leaves the parser.
pub record Received (p' : LinkLayerParser) (frames : List (LinkHeaderFields × List ℕ))
    : Type 0 where
  pub sound : Sound p'.state p'
  pub unfinished : p'.state ≢ complete
  pub room : 0 < num_write_bytes p'.buffer
  pub formed : All WellFormed frames

shift-BufferOk : (b : ShiftableBuffer) → BufferOk b → BufferOk (shift b)
unfolding shift
shift-BufferOk b v = record {
  bytes =
      write_at-Byte 0 (read_buffer b) b.bytes
        (All-take Byte (num_bytes_read b) (drop b.read_pos b.bytes)
          (All-drop Byte b.read_pos b.bytes v.bytes))
        v.bytes;
  size =
      length-write_at 0 (read_buffer b) b.bytes
        (omega (arith, length-take (num_bytes_read b) (drop b.read_pos b.bytes), v.top, v.size))
      ∙ v.size;
  order = omega arith;
  top = omega (arith, v.top);
}

waiting_room :
    (s : State) (p : LinkLayerParser)
    → Sound s p
    → s ≢ complete
    → Waiting s p
    → num_bytes_read p.buffer < 292
waiting_room find_sync p v c w = omega arith
waiting_room read_header_state p v c w = omega arith
waiting_room read_body p v c w = omega (arith, frame_size-bounds p (v.framed refl), w)
waiting_room complete p v c w = absurd (c refl)

Received-shift :
    (p' : LinkLayerParser) (frames : List (LinkHeaderFields × List ℕ))
    → Pushed p' frames
    → Received (record p' { buffer = shift p'.buffer }) frames
Received-shift p' frames r = record {
  sound = record { ok = ok; framed = framed; ready = λ e. absurd (r.unfinished e) };
  unfinished = r.unfinished;
  room = room;
  formed = r.formed;
}
  where
    ok : BufferOk (shift p'.buffer)
    ok = shift-BufferOk p'.buffer r.sound.ok

    framed : p'.state ≡ read_body → Framed (record p' { buffer = shift p'.buffer })
    framed e = ground (arith, r.sound.framed e)

    room : 0 < num_write_bytes (shift p'.buffer)
    room =
        unfold shift in
        omega (
          arith,
          (shift-BufferOk p'.buffer r.sound.ok).size,
          waiting_room p'.state p' r.sound r.unfinished r.waiting,
        )

-- The parser with the bytes that have arrived.
abbrev arrived : LinkLayerParser → List ℕ → LinkLayerParser
arrived p input =
    let q = fill input p in record q { buffer = advance_write (length input) q.buffer }

arrived-Sound :
    (p : LinkLayerParser) (input : List ℕ)
    → Sound p.state p
    → All Byte input
    → length input ≤ num_write_bytes p.buffer
    → p.state ≢ complete
    → Sound (arrived p input).state (arrived p input)
unfolding fill advance_write
arrived-Sound p input v bytes fits c = record {
  ok = record {
    bytes = write_at-Byte p.buffer.write_pos input p.buffer.bytes bytes v.ok.bytes;
    size =
        length-write_at p.buffer.write_pos input p.buffer.bytes (omega (arith, v.ok.size, v.ok.top))
        ∙ v.ok.size;
    order = omega (arith, v.ok.order);
    top = omega (arith, v.ok.size, v.ok.top);
  };
  framed = λ e. ground (arith, v.framed e);
  ready = λ e. absurd (c e);
}

-- For a parser that satisfies the invariant and has not stopped at a complete frame, and any bytes for
-- which its buffer has room, `OnRead` returns: the loops end within their fuel, the invariant holds
-- again, there is room for at least one more byte, and every frame passed to the sink is well formed.
pub receive-Received :
    (p : LinkLayerParser) (input : List ℕ)
    → Sound p.state p
    → All Byte input
    → length input ≤ num_write_bytes p.buffer
    → p.state ≢ complete
    → (p' : LinkLayerParser) × (frames : List (LinkHeaderFields × List ℕ)) × (receive input p
        ≡ some (p', frames))
      × Received p' frames
unfolding receive Pushes
receive-Received p input v bytes fits c =
    let v' = arrived-Sound p input v bytes fits c in
    let (p', frames, e, r) = pushes frame_fuel (arrived p input) v' (omega (arith, v'.ok.top)) in
    (
      record p' { buffer = shift p'.buffer },
      frames,
      rw (e, on_read) refl,
      Received-shift p' frames r,
    )
