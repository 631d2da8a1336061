-- ===== src/Link/Examples.antt =====
-- The link layer's theorems at concrete inputs.
use dnp.Prelude.{
  ◌↔◌, ℕ, ◌-◌, ◌≡◌, ◌≢◌, ◌++◌, refl, true, false, none, some, List, [], ◌∷◌, arith, length,
  replicate,
}
use dnp.Transport.Tx.{TransportTx, transport_tx_segment}
use dnp.Link.Function.{invalid, sec_ack, link_function_from_type}
use dnp.Link.Crc.{calc_crc}
use dnp.Link.Crc.Laws.{remainder, calc_crc-remainder}
use dnp.Link.Crc.Errors.{calc_crc-change}
use dnp.Link.Header.{
  LinkHeader, LinkHeaderFields, set_header, read_header, write_header, header_fields, is_pri_to_sec,
  get_func_enum, is_fcv_dfc_set,
}
use dnp.Link.HeaderLaws.{read-write_header, header_fields-set}
use dnp.Link.Frame.{calc_user_data_size, write_blocks, validate_blocks, read_blocks}
use dnp.Link.Validation.{validate_function_code, validate_payload}
use dnp.Link.Blocks.{length-write_blocks, validate_blocks-write_blocks}
use dnp.Link.InPlace.{extract, Moved, extract-write_blocks, read_blocks-Moved}
use dnp.Link.Parser.{LinkLayerParser, find_sync, parse_one_step, receive}
use dnp.Link.Parser.Invariant.{Sound, Stepped, parse_one_step-Stepped}
use dnp.Link.Parser.Total.{Received, receive-Received}
use dnp.Link.Parser.RoundTrip.{Fresh, receive-frame_bytes}
use dnp.Link.Parser.RoundTrip.Steps.{Accepted, frame_bytes}
use dnp.Link.Context.{
  LinkConfig, LinkContext, new_context, idle, reset_link_wait, post_send_result, reset, tx_idle,
}
use dnp.Link.SecStates.{on_confirmed_user_data, sec_on_transmit_result}
use dnp.Link.Layer.{
  lower_layer_up, send_segments, transmit_result, response_timer, run, on_frame,
  expire_response_timer,
}
use dnp.Link.Layer.Progress.{Ready, run-new_context}
use dnp.Link.Layer.Delivery.{
  ForUs, resets, Unanswered, received, repeat_resets, confirmed_user_data_repeated,
  on_frame_handled, repeat_resets-fails,
}

abbrev parser : LinkLayerParser
parser = record {
  statistics = none;
  header = record { length = 5; src = 0; dest = 0; ctrl = 0 };
  state = find_sync;
  frame_size = 0;
  user_data = [];
  buffer = record { bytes = replicate 292 0; write_pos = 0; read_pos = 0 };
}

-- An unconfirmed frame of the master with two bytes.
abbrev header : LinkHeader
header = record { length = 7; src = 1; dest = 1024; ctrl = 0xc4 }

header-Accepted : Accepted header (7 ∷ 8 ∷ [])
unfolding validate_function_code validate_payload is_pri_to_sec get_func_enum
    link_function_from_type is_fcv_dfc_set
header-Accepted = record {
  counted = refl;
  short = omega arith;
  addresses = (omega arith, omega arith);
  function = refl;
  carried = refl;
}

parser-Fresh : Fresh parser
parser-Fresh = record { searches = refl; start = refl; empty = refl; large = refl }

parser-Sound : Sound find_sync parser
parser-Sound = record {
  ok = record { bytes = ground arith; size = refl; order = omega arith; top = omega arith };
  framed = λ e. absurd (ground (arith, e));
  ready = λ e. absurd (ground (arith, e));
}

receive-frame_bytes_example :
    (q : LinkLayerParser) × (receive (frame_bytes header (7 ∷ 8 ∷ [])) parser
      ≡ some (q, (header_fields header, 7 ∷ 8 ∷ []) ∷ []))
    × Fresh q
receive-frame_bytes_example =
    receive-frame_bytes parser header (7 ∷ 8 ∷ []) header-Accepted parser-Fresh

receive-Received_example :
    (q : LinkLayerParser) × (frames : List (LinkHeaderFields × List ℕ)) × (receive
        (0x05 ∷ 0x64 ∷ [])
        parser
      ≡ some (q, frames))
    × Received q frames
receive-Received_example =
    receive-Received parser (0x05 ∷ 0x64 ∷ []) parser-Sound (ground arith) (omega arith)
      (λ e. absurd (ground (arith, e)))

parse_one_step-Stepped_example :
    Stepped find_sync (parse_one_step parser).state parser (parse_one_step parser)
parse_one_step-Stepped_example = parse_one_step-Stepped parser parser-Sound

calc_crc-remainder_example : calc_crc (1 ∷ 2 ∷ []) ≡ 65535 - remainder 0 (1 ∷ 2 ∷ [])
calc_crc-remainder_example = calc_crc-remainder (1 ∷ 2 ∷ []) (ground arith)

calc_crc-change_example : calc_crc (1 ∷ 2 ∷ 3 ∷ []) ≢ calc_crc (1 ∷ 4 ∷ 3 ∷ [])
calc_crc-change_example =
    calc_crc-change (1 ∷ []) 2 4 (3 ∷ []) (ground arith) (ground arith) (omega arith)

length-write_blocks_example : length (write_blocks 3 (7 ∷ 8 ∷ 9 ∷ []) 3) ≡ calc_user_data_size 3
length-write_blocks_example = length-write_blocks 3 (7 ∷ 8 ∷ 9 ∷ []) 3 (omega arith) (omega arith)

validate_blocks-write_blocks_example :
    validate_blocks 3 (write_blocks 3 (7 ∷ 8 ∷ 9 ∷ []) 3 ++ 1 ∷ []) 3 ≡ true
validate_blocks-write_blocks_example =
    validate_blocks-write_blocks 3 (7 ∷ 8 ∷ 9 ∷ []) (1 ∷ []) 3 (omega arith) (omega arith)

extract-write_blocks_example :
    extract 3 (write_blocks 3 (7 ∷ 8 ∷ 9 ∷ []) 3 ++ 1 ∷ []) 3 ≡ 7 ∷ 8 ∷ 9 ∷ []
extract-write_blocks_example =
    extract-write_blocks 3 (7 ∷ 8 ∷ 9 ∷ []) (1 ∷ []) 3 (omega arith) (omega arith)

read_blocks-Moved_example :
    Moved 2 (1 ∷ 7 ∷ 8 ∷ 0 ∷ 0 ∷ []) 1 0 2 (read_blocks 2 (1 ∷ 7 ∷ 8 ∷ 0 ∷ 0 ∷ []) 1 0 2)
unfolding calc_user_data_size
read_blocks-Moved_example =
    read_blocks-Moved 2 (1 ∷ 7 ∷ 8 ∷ 0 ∷ 0 ∷ []) 1 0 2 (omega arith) (omega arith) (omega arith)

read-write_header_example : read_header (write_header header ++ 1 ∷ []) ≡ header
read-write_header_example = read-write_header header (1 ∷ []) (omega arith) (omega arith)

header_fields-set_example :
    (header_fields (read_header (write_header (set_header 5 1 1024 true false false sec_ack) ++ []))
      ≡ record {
        func = sec_ack;
        is_from_master = true;
        fcb = false;
        fcvdfc = false;
        dest = 1024;
        src = 1;
      })
    × ((read_header (write_header (set_header 5 1 1024 true false false sec_ack) ++ [])).length ≡ 5)
    × (is_pri_to_sec
          (read_header (write_header (set_header 5 1 1024 true false false sec_ack) ++ []))
        ≡ false)
header_fields-set_example =
    header_fields-set 5 1 1024 true false false sec_ack [] (omega arith) (omega arith)
      (ground arith)

abbrev config : LinkConfig
config = record {
  is_master = true;
  use_confirms = true;
  num_retry = 1;
  local_addr = 1;
  remote_addr = 1024;
  keep_alive_timeout = 60000;
}

abbrev tx : TransportTx
tx = record {
  apdu = 7 ∷ 8 ∷ [];
  tx_segment = none;
  statistics = none;
  sequence = 0;
  tpdu_count = 0;
}

abbrev waiting : LinkContext TransportTx
waiting = record {
  config = config;
  pending_pri_tx = none;
  pending_sec_tx = none;
  segments = tx;
  has_segments = true;
  null_access = false;
  tx_mode = tx_idle;
  num_retry_remaining = 1;
  rsp_timeout_timer = true;
  keep_alive_timer = true;
  next_read_fcb = true;
  next_write_fcb = true;
  is_online = true;
  is_remote_reset = false;
  keep_alive_timeout = false;
  last_message_timestamp = 0;
  pri_state = reset_link_wait;
  sec_state = reset;
  output = [];
}

run-new_context_example : Ready (
    run transport_tx_segment
      (lower_layer_up 10 ∷ send_segments tx ∷ transmit_result true ∷ response_timer ∷ [])
      (new_context config 0 tx))
run-new_context_example =
    run-new_context transport_tx_segment config 0 tx
      (lower_layer_up 10 ∷ send_segments tx ∷ transmit_result true ∷ response_timer ∷ [])

confirmed_user_data_repeated_example :
    (sec_on_transmit_result (on_confirmed_user_data reset true (7 ∷ []) waiting).1 ≡ reset)
    × (received
          (on_confirmed_user_data reset true
            (8 ∷ [])
            (on_confirmed_user_data reset true (7 ∷ []) waiting).0).0.output
        ≡ received (on_confirmed_user_data reset true (7 ∷ []) waiting).0.output)
confirmed_user_data_repeated_example =
    confirmed_user_data_repeated true (7 ∷ []) (8 ∷ []) waiting
      (on_confirmed_user_data reset true (7 ∷ []) waiting).0 refl

abbrev ack : LinkHeaderFields
ack = record {
  func = sec_ack;
  is_from_master = false;
  fcb = false;
  fcvdfc = false;
  dest = 1;
  src = 1024;
}

ack_handled : (on_frame transport_tx_segment 5 ack [] waiting).1 ≡ true
unfolding on_frame
ack_handled = refl

on_frame_handled_example :
    (((on_frame transport_tx_segment 5 ack [] waiting).1 ≡ true)
      ↔ (ForUs ack waiting × (ack.func ≢ invalid)))
    × (¬ (ForUs ack waiting) → on_frame transport_tx_segment 5 ack [] waiting ≡ (waiting, false))
    × (ForUs ack waiting
        → ack.func ≡ invalid
        → on_frame transport_tx_segment 5 ack [] waiting
          ≡ (record waiting { last_message_timestamp = 5 }, false))
on_frame_handled_example = on_frame_handled transport_tx_segment 5 ack [] waiting

waiting-Unanswered : Unanswered 1 waiting
waiting-Unanswered = record {
  waits = refl;
  timer = refl;
  retries = refl;
  free = refl;
  no_pri = refl;
  no_sec = refl;
  no_keep_alive = refl;
}

repeat_resets-fails_example :
    ((expire_response_timer transport_tx_segment
        (repeat_resets transport_tx_segment 1 waiting)).pri_state
      ≡ idle)
    × ((expire_response_timer transport_tx_segment
          (repeat_resets transport_tx_segment 1 waiting)).has_segments
        ≡ false)
    × ((expire_response_timer transport_tx_segment
          (repeat_resets transport_tx_segment 1 waiting)).output
        ≡ post_send_result false ∷ (resets 1 waiting.config ++ waiting.output))
repeat_resets-fails_example = repeat_resets-fails transport_tx_segment 1 waiting waiting-Unanswered
