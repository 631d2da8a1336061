-- ===== src/Link/Parser/Invariant.antt =====
-- What holds of the parser between two steps, and that each step brings it nearer to the end.
use dnp.Prelude.{
  ℕ, zero, suc, ◌+◌, ◌-◌, ◌*◌, ◌≤◌, ◌<◌, ◌≡◌, refl, ◌∙◌, inl, inr, Bool, true, false, List, [], ◌∷◌,
  ◌==◌, ◌&&◌, ◌++◌, arith, length, take, drop, get_or, write_at, All, All-append, All-take,
  All-drop, Bool-cases, lt_or_le, length-take, lt→ltb, le→ltb,
}
use dnp.Link.Header.{read_header, valid_length}
use dnp.Link.Frame.{calc_frame_size, calc_user_data_size, read_blocks, block_size}
use dnp.Link.InPlace.{read_blocks-Moved}
use dnp.Link.Validation.{validate_function_code, validate_payload}
use dnp.Link.Buffer.{ShiftableBuffer, num_bytes_read, read_buffer, advance_read, sync, sync_loop}
use dnp.Link.Parser.{
  State, find_sync, read_header_state, read_body, complete, LinkLayerParser, parse_sync,
  parse_header, parse_body, read_frame_header, validate_header_parameters, validate_body,
  transfer_user_data, dispatch, parse_one_step, state_eq,
}

abbrev pub Byte : ℕ → Type 0
Byte b = b < 256

pub record BufferOk (b : ShiftableBuffer) : Type 0 where
  pub bytes : All Byte b.bytes
  pub size : length b.bytes ≡ 292
  pub order : b.read_pos ≤ b.write_pos
  pub top : b.write_pos ≤ 292

-- The header has been accepted, and the frame's size is the one that its length gives.
pub record Framed (p : LinkLayerParser) : Type 0 where
  pub low : 5 ≤ p.header.length
  pub high : p.header.length < 256
  pub sized : p.frame_size ≡ calc_frame_size (p.header.length - 5)
  pub accepted : validate_function_code p.header ≡ true
  pub payload : validate_payload p.header ≡ true
  pub addresses : (p.header.dest < 65536) × (p.header.src < 65536)

-- The invariant of a parser whose state is `s`.
pub record Sound (s : State) (p : LinkLayerParser) : Type 0 where
  pub ok : BufferOk p.buffer
  pub framed : s ≡ read_body → Framed p
  pub ready :
      s ≡ complete
      → Framed p
        × (p.frame_size ≤ num_bytes_read p.buffer)
        × (length p.user_data ≡ p.header.length - 5)

-- Falls with every change of state: a byte is worth more than the four states.
abbrev pub rank : State → ℕ
rank find_sync = 3
rank read_header_state = 2
rank read_body = 1
rank complete = 0

abbrev pub measure : State → LinkLayerParser → ℕ
measure s p = 4 * num_bytes_read p.buffer + rank s

-- Where a step that changes no state leaves the parser waiting for bytes.
abbrev pub Waiting : State → LinkLayerParser → Type 0
Waiting find_sync p = num_bytes_read p.buffer < 10
Waiting read_header_state p = num_bytes_read p.buffer < 10
Waiting read_body p = num_bytes_read p.buffer < p.frame_size
Waiting complete p = p.frame_size ≤ num_bytes_read p.buffer

pub record Stepped (s s' : State) (p p' : LinkLayerParser) : Type 0 where
  pub sound : Sound s' p'
  pub fewer : num_bytes_read p'.buffer ≤ num_bytes_read p.buffer
  pub ends : state_eq s' s ≡ true → Waiting s' p'
  pub falls : state_eq s' s ≡ false → measure s' p' < measure s p

pub frame_size-bounds :
    (p : LinkLayerParser) → Framed p → (10 ≤ p.frame_size) × (p.frame_size ≤ 292)
unfolding calc_frame_size calc_user_data_size
frame_size-bounds p f = ground (arith, f.low, f.high, f.sized)

pub advance_read-BufferOk :
    (n : ℕ) (b : ShiftableBuffer) → BufferOk b → n ≤ num_bytes_read b → BufferOk (advance_read n b)
unfolding advance_read
advance_read-BufferOk n b v h = record {
  bytes = v.bytes;
  size = v.size;
  order = omega (arith, v.order);
  top = v.top;
}

record Synced (b b' : ShiftableBuffer) (found : Bool) : Type 0 where
  ok : BufferOk b'
  fewer : num_bytes_read b' ≤ num_bytes_read b
  some_left : found ≡ true → 2 ≤ num_bytes_read b'
  none_left : found ≡ false → num_bytes_read b' ≤ 1

num_bytes-advance : (b : ShiftableBuffer) → num_bytes_read (advance_read 1 b) ≤ num_bytes_read b
unfolding advance_read
num_bytes-advance b = omega arith

num_bytes-advance_lt :
    (b : ShiftableBuffer) (fuel : ℕ)
    → 1 < num_bytes_read b
    → num_bytes_read b ≤ suc fuel
    → num_bytes_read (advance_read 1 b) ≤ fuel
unfolding advance_read
num_bytes-advance_lt b fuel h k = omega arith

Synced-advance :
    (b b' : ShiftableBuffer) (found : Bool) → Synced (advance_read 1 b) b' found → Synced b b' found
Synced-advance b b' found r = record {
  ok = r.ok;
  fewer = omega (arith, r.fewer, num_bytes-advance b);
  some_left = r.some_left;
  none_left = r.none_left;
}

sync_loop-Synced :
    (fuel : ℕ) (b : ShiftableBuffer)
    → BufferOk b
    → num_bytes_read b ≤ fuel
    → Synced b (sync_loop fuel b).0 (sync_loop fuel b).1
unfolding sync_loop
sync_loop-Synced zero b v h = record {
  ok = v;
  fewer = omega arith;
  some_left = λ e. cc;
  none_left = λ e. omega arith;
}
sync_loop-Synced (suc fuel) b v h =
    let ih = λ (v' : BufferOk (advance_read 1 b)) (h' : num_bytes_read (advance_read 1 b) ≤ fuel).
      sync_loop-Synced fuel (advance_read 1 b) v' h' in
    elim (lt_or_le 2 (num_bytes_read b + 1)) [
      | inl two ↦
          elim (Bool-cases
            (get_or (read_buffer b) 0 0 == 0x05 && get_or (read_buffer b) 1 0 == 0x64)) [
              | inl here ↦
                  rw (lt→ltb 1 (num_bytes_read b) (omega arith), here)
                    (record {
                      ok = v;
                      fewer = omega arith;
                      some_left = λ e. omega arith;
                      none_left = λ e. cc;
                    })
              | inr other ↦
                  rw (lt→ltb 1 (num_bytes_read b) (omega arith), other)
                    (Synced-advance b _ _ (
                      ih (advance_read-BufferOk 1 b v (omega arith))
                        (num_bytes-advance_lt b fuel (omega arith) h)))
            ]
      | inr few ↦ rw (le→ltb 1 (num_bytes_read b) (omega arith)) (record {
        ok = v;
        fewer = omega arith;
        some_left = λ e. cc;
        none_left = λ e. omega arith;
      })
    ]

sync-Synced : (b : ShiftableBuffer) → BufferOk b → Synced b (sync b).0 (sync b).1
unfolding sync
sync-Synced b v = sync_loop-Synced (num_bytes_read b) b v (omega arith)

parse_sync-Stepped :
    (p : LinkLayerParser)
    → Sound find_sync p
    → Stepped find_sync (parse_sync p).1 p (parse_sync p).0
unfolding parse_sync
parse_sync-Stepped p v = ground (arith, sync-Synced p.buffer v.ok)

get_or-Byte : (xs : List ℕ) (i : ℕ) → All Byte xs → get_or xs i 0 < 256
get_or-Byte [] i h = omega arith
get_or-Byte (x ∷ xs) zero h = h.0
get_or-Byte (x ∷ xs) (suc i) h = get_or-Byte xs i h.1

read_buffer-Byte : (b : ShiftableBuffer) → BufferOk b → All Byte (read_buffer b)
read_buffer-Byte b v =
    All-take Byte (num_bytes_read b) (drop b.read_pos b.bytes)
      (All-drop Byte b.read_pos b.bytes v.bytes)

read_frame_header-Framed :
    (p : LinkLayerParser)
    → BufferOk p.buffer
    → ((read_frame_header p).0.buffer ≡ p.buffer)
      × ((read_frame_header p).1 ≡ true → Framed (read_frame_header p).0)
unfolding read_frame_header validate_header_parameters read_header valid_length
read_frame_header-Framed p v = ground (arith, byte 2, byte 4, byte 5, byte 6, byte 7)
  where
    byte : (i : ℕ) → get_or (read_buffer p.buffer) i 0 < 256
    byte i = get_or-Byte (read_buffer p.buffer) i (read_buffer-Byte p.buffer v)

parse_header-Stepped :
    (p : LinkLayerParser)
    → Sound read_header_state p
    → Stepped read_header_state (parse_header p).1 p (parse_header p).0
unfolding parse_header advance_read
parse_header-Stepped p v = ground (arith, read_frame_header-Framed p v.ok)

pub write_at-Byte :
    (n : ℕ) (src buf : List ℕ) → All Byte src → All Byte buf → All Byte (write_at n src buf)
write_at-Byte n src buf hs hb =
    All-append Byte (take n buf) (src ++ drop (n + length src) buf) (All-take Byte n buf hb)
      (All-append Byte src (drop (n + length src) buf) hs (All-drop Byte (n + length src) buf hb))

read_blocks-Byte :
    (fuel : ℕ) (buf : List ℕ) (src dest n : ℕ)
    → All Byte buf
    → All Byte (read_blocks fuel buf src dest n)
unfolding read_blocks
read_blocks-Byte zero buf src dest n h = h
read_blocks-Byte (suc fuel) buf src dest n h =
    let ih =
      read_blocks-Byte fuel (write_at dest (take (block_size n) (drop src buf)) buf)
        (src + (block_size n + 2)) (dest + block_size n) (n - block_size n)
        (write_at-Byte dest (take (block_size n) (drop src buf)) buf
          (All-take Byte (block_size n) (drop src buf) (All-drop Byte src buf h)) h) in
    ground (arith, ih)

validate_body_keeps :
    (p : LinkLayerParser)
    → ((validate_body p).0.buffer ≡ p.buffer)
      × ((validate_body p).0.header ≡ p.header)
      × ((validate_body p).0.frame_size ≡ p.frame_size)
unfolding validate_body
validate_body_keeps p = ground arith

-- What the transfer of the data leaves.
pub transfer_user_data-BufferOk :
    (p : LinkLayerParser)
    → BufferOk p.buffer
    → Framed p
    → p.frame_size ≤ num_bytes_read p.buffer
    → BufferOk (transfer_user_data p).buffer
unfolding transfer_user_data calc_frame_size
transfer_user_data-BufferOk p v f h = record {
  bytes =
      read_blocks-Byte (p.header.length - 5) p.buffer.bytes (p.buffer.read_pos + 10) 0
        (p.header.length - 5) v.bytes;
  size =
      (read_blocks-Moved (p.header.length - 5) p.buffer.bytes (p.buffer.read_pos + 10) 0
        (p.header.length - 5) (omega arith) (omega arith)
        (omega (arith, v.size, v.order, v.top, f.sized, h))).size
      ∙ v.size;
  order = v.order;
  top = v.top;
}

transfer_user_data_length :
    (p : LinkLayerParser)
    → BufferOk (transfer_user_data p).buffer
    → Framed p
    → length (transfer_user_data p).user_data ≡ p.header.length - 5
unfolding transfer_user_data
transfer_user_data_length p v f =
    omega
      (arith, v.size, f.high, length-take (p.header.length - 5) (transfer_user_data p).buffer.bytes)

pub transfer_user_data_keeps :
    (p : LinkLayerParser)
    → (num_bytes_read (transfer_user_data p).buffer ≡ num_bytes_read p.buffer)
      × ((transfer_user_data p).header ≡ p.header)
      × ((transfer_user_data p).frame_size ≡ p.frame_size)
unfolding transfer_user_data
transfer_user_data_keeps p = ground arith

parse_body-Stepped :
    (p : LinkLayerParser)
    → Sound read_body p
    → Stepped read_body (parse_body p).1 p (parse_body p).0
unfolding parse_body advance_read
parse_body-Stepped p v = ground (
  arith,
  v.framed refl,
  frame_size-bounds p,
  validate_body_keeps p,
  transfer_user_data-BufferOk (validate_body p).0,
  transfer_user_data_length (validate_body p).0,
  transfer_user_data_keeps (validate_body p).0,
)

dispatch-Stepped :
    (s : State) (p : LinkLayerParser) → Sound s p → Stepped s (dispatch s p).1 p (dispatch s p).0
unfolding dispatch
dispatch-Stepped find_sync p v = parse_sync-Stepped p v
dispatch-Stepped read_header_state p v = parse_header-Stepped p v
dispatch-Stepped read_body p v = parse_body-Stepped p v
dispatch-Stepped complete p v = record {
  sound = v;
  fewer = omega arith;
  ends = λ e. (v.ready refl).1;
  falls = λ e. cc;
}

Stepped-state :
    (s s' t : State) (p p' : LinkLayerParser)
    → Stepped s s' p p'
    → Stepped s s' p (record p' { state = t })
Stepped-state s find_sync t p p' r = ground (arith, r.sound, r.ends, r.falls)
Stepped-state s read_header_state t p p' r = ground (arith, r.sound, r.ends, r.falls)
Stepped-state s read_body t p p' r = ground (arith, r.sound, r.ends, r.falls)
Stepped-state s complete t p p' r = ground (arith, r.sound, r.ends, r.falls)

-- Each step keeps the invariant, and either changes the state and brings the end nearer, or leaves
-- the parser where only more bytes help.
pub parse_one_step-Stepped :
    (p : LinkLayerParser)
    → Sound p.state p
    → Stepped p.state (parse_one_step p).state p (parse_one_step p)
unfolding parse_one_step
parse_one_step-Stepped p v = Stepped-state p.state _ _ p _ (dispatch-Stepped p.state p v)
