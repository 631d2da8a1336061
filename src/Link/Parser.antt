-- ===== src/Link/Parser.antt =====
-- link/LinkLayerParser.h and LinkLayerParser.cpp: frames are found in the stream of bytes. A frame
-- passed to the sink is an entry in the result. The loops take fuel and return none when it runs out;
-- Parser/Total.antt shows that it does not.
pub mod Invariant
pub mod Total
pub mod RoundTrip
use dnp.Prelude.{
  ℕ, zero, suc, ◌+◌, ◌-◌, ◌*◌, ◌%◌, ◌^◌, ◌≡◌, Bool, true, false, Option, none, some, List, [], ◌∷◌,
  if◌then◌else◌, ltb, leb, ◌==◌, length, take, drop, replicate, write_at,
}
use dnp.Link.Function.{lpdu_header_size, lpdu_min_length, lpdu_max_frame_size, li_crc}
use dnp.Link.Crc.{is_correct_crc}
use dnp.Link.Header.{
  LinkHeader, LinkHeaderFields, empty_header, read_header, valid_length, header_fields,
}
use dnp.Link.Frame.{calc_frame_size, validate_body_crc, read_user_data}
use dnp.Link.Validation.{validate_function_code, user_data_length, validate_payload}
use dnp.Link.Buffer.{
  ShiftableBuffer, new_buffer, num_bytes_read, read_buffer, advance_read, advance_write, shift,
  reset, sync,
}

pub data State : Type 0 where
  find_sync read_header_state read_body complete : State

-- The counters of link/LinkChannelStatistics.h that the parser moves.
pub record LinkChannelStatistics : Type 0 where
  pub num_crc_error : ℕ
  pub num_link_frame_rx : ℕ
  pub num_bad_link_frame_rx : ℕ

abbrev u32 : ℕ → ℕ
u32 n = n % 2 ^ 32

abbrev pub count_crc_error : Option LinkChannelStatistics → Option LinkChannelStatistics
count_crc_error none = none
count_crc_error (some s) = some (record s { num_crc_error = u32 (s.num_crc_error + 1) })

abbrev pub count_frame_rx : Option LinkChannelStatistics → Option LinkChannelStatistics
count_frame_rx none = none
count_frame_rx (some s) = some (record s { num_link_frame_rx = u32 (s.num_link_frame_rx + 1) })

abbrev pub count_bad_frame : Option LinkChannelStatistics → Option LinkChannelStatistics
count_bad_frame none = none
count_bad_frame (some s) =
    some (record s { num_bad_link_frame_rx = u32 (s.num_bad_link_frame_rx + 1) })

pub record LinkLayerParser : Type 0 where
  pub statistics : Option LinkChannelStatistics
  pub header : LinkHeader
  pub state : State
  pub frame_size : ℕ
  pub user_data : List ℕ
  pub buffer : ShiftableBuffer

-- The constructor.
unfoldable pub new_parser : Option LinkChannelStatistics → LinkLayerParser
unfolding new_buffer
new_parser statistics = record {
  statistics = statistics;
  header = empty_header;
  state = find_sync;
  frame_size = 0;
  user_data = [];
  buffer = new_buffer (replicate lpdu_max_frame_size 0);
}

-- `Reset`
unfoldable pub reset_parser : LinkLayerParser → LinkLayerParser
unfolding reset
reset_parser p = record p { state = find_sync; frame_size = 0; buffer = reset p.buffer }

-- `ParseSync`; each step returns the state that its caller assigns.
unfoldable pub parse_sync : LinkLayerParser → LinkLayerParser × State
parse_sync p =
    if leb 10 (num_bytes_read p.buffer)
    then (let (buffer, found) = sync p.buffer in
        (record p { buffer = buffer }, if found then read_header_state else find_sync))
    else (p, find_sync)

-- `ValidateHeaderParameters`: the frame's size is set once the function code is accepted.
unfoldable pub validate_header_parameters : LinkLayerParser → LinkLayerParser × Bool
unfolding valid_length
validate_header_parameters p =
    if valid_length p.header
    then (if validate_function_code p.header
        then (
          record p { frame_size = calc_frame_size (user_data_length p.header) },
          validate_payload p.header,
        )
        else (p, false))
    else (p, false)

-- `ReadHeader`
unfoldable pub read_frame_header : LinkLayerParser → LinkLayerParser × Bool
unfolding validate_header_parameters
read_frame_header p =
    let p' = record p { header = read_header (read_buffer p.buffer) } in
    if is_correct_crc (read_buffer p.buffer) li_crc
    then (let (p'', valid) = validate_header_parameters p' in
        if valid
        then (p'', true)
        else (record p'' { statistics = count_bad_frame p''.statistics }, false))
    else (record p' { statistics = count_crc_error p'.statistics }, false)

-- `FailFrame`
unfoldable pub fail_frame : LinkLayerParser → LinkLayerParser
unfolding advance_read
fail_frame p = record p { buffer = advance_read 1 p.buffer }

-- `ParseHeader`
unfoldable pub parse_header : LinkLayerParser → LinkLayerParser × State
unfolding fail_frame
parse_header p =
    if leb 10 (num_bytes_read p.buffer)
    then (let (p', valid) = read_frame_header p in
        if valid then (p', read_body) else (fail_frame p', find_sync))
    else (p, read_header_state)

-- `ValidateBody`
unfoldable pub validate_body : LinkLayerParser → LinkLayerParser × Bool
validate_body p =
    if validate_body_crc (drop lpdu_header_size (read_buffer p.buffer))
      (p.header.length - lpdu_min_length)
    then (p, true)
    else (record p { statistics = count_crc_error p.statistics }, false)

-- `TransferUserData`: the data moves to the front of the receive buffer, and the slice leads there.
unfoldable pub transfer_user_data : LinkLayerParser → LinkLayerParser
transfer_user_data p =
    let len = p.header.length - lpdu_min_length in
    let bytes = read_user_data p.buffer.bytes (p.buffer.read_pos + lpdu_header_size) 0 len in
    record p {
      buffer = record {
        bytes = bytes;
        write_pos = p.buffer.write_pos;
        read_pos = p.buffer.read_pos;
      };
      user_data = take len bytes;
    }

-- `ParseBody`
unfoldable pub parse_body : LinkLayerParser → LinkLayerParser × State
unfolding validate_body transfer_user_data fail_frame
parse_body p =
    if ltb (num_bytes_read p.buffer) p.frame_size
    then (p, read_body)
    else (let (p', valid) = validate_body p in
        if valid then (transfer_user_data p', complete) else (fail_frame p', find_sync))

-- `ParseOneStep`, and the assignment of the state that it returns.
dispatch : State → LinkLayerParser → LinkLayerParser × State
dispatch find_sync p = parse_sync p
dispatch read_header_state p = parse_header p
dispatch read_body p = parse_body p
dispatch complete p = (p, complete)

unfoldable pub parse_one_step : LinkLayerParser → LinkLayerParser
unfolding dispatch
parse_one_step p = let (p', state) = dispatch p.state p in record p' { state = state }

abbrev pub state_eq : State → State → Bool
state_eq find_sync find_sync = true
state_eq read_header_state read_header_state = true
state_eq read_body read_body = true
state_eq complete complete = true
state_eq _ _ = false

-- `ParseUntilComplete`: steps are made as long as the state changes.
unfoldable pub parse_until_complete : ℕ → LinkLayerParser → Option LinkLayerParser
parse_until_complete zero p = none
parse_until_complete (suc fuel) p =
    let p' = parse_one_step p in
    let rest = parse_until_complete fuel p' in if state_eq p'.state p.state then some p' else rest

-- `PushFrame`: what the sink is told, and the parser behind the frame.
unfoldable pub pushed_frame : LinkLayerParser → LinkHeaderFields × List ℕ
pushed_frame p = (header_fields p.header, p.user_data)

unfoldable pub push_frame : LinkLayerParser → LinkLayerParser
unfolding advance_read
push_frame p = record p {
  statistics = count_frame_rx p.statistics;
  buffer = advance_read p.frame_size p.buffer;
  state = find_sync;
}

-- Enough for the steps that the bytes of a full buffer can cause, and for its frames.
abbrev pub step_fuel : ℕ
step_fuel = 1200

abbrev pub frame_fuel : ℕ
frame_fuel = 293

-- The loop of `OnRead`.
unfoldable pub push_frames :
    ℕ → LinkLayerParser → Option (LinkLayerParser × List (LinkHeaderFields × List ℕ))
push_frames zero p = none
push_frames (suc fuel) p = elim (parse_until_complete step_fuel p) [
  | none ↦ none
  | some p' ↦ elim (state_eq p'.state complete) [
    | true ↦ elim (push_frames fuel (push_frame p')) [
      | none ↦ none
      | some (p'', frames) ↦ some (p'', pushed_frame p' ∷ frames)
    ]
    | false ↦ some (p', [])
  ]
]

-- `OnRead` of as many bytes as the channel wrote behind the write position.
unfoldable pub on_read :
    ℕ → LinkLayerParser → Option (LinkLayerParser × List (LinkHeaderFields × List ℕ))
unfolding advance_write shift
on_read num_bytes p =
    elim (push_frames frame_fuel (record p { buffer = advance_write num_bytes p.buffer })) [
      | none ↦ none
      | some (p', frames) ↦ some (record p' { buffer = shift p'.buffer }, frames)
    ]

-- The channel fills the slice that `WriteBuff` returns, and calls `OnRead`.
unfoldable pub fill : List ℕ → LinkLayerParser → LinkLayerParser
fill input p = record p {
  buffer = record {
    bytes = write_at p.buffer.write_pos input p.buffer.bytes;
    write_pos = p.buffer.write_pos;
    read_pos = p.buffer.read_pos;
  };
}

unfoldable pub receive :
    List ℕ → LinkLayerParser → Option (LinkLayerParser × List (LinkHeaderFields × List ℕ))
unfolding on_read fill
receive input p = on_read (length input) (fill input p)
