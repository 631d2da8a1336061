-- ===== src/Outstation/RequestHistory.antt =====
-- opendnp3/outstation/RequestHistory.cpp, with OnReceiveSolRequest and ProcessNewRequest of
-- OutstationContext.cpp: whether a request repeats the one before.
pub mod Laws
use dnp.Prelude.{ℕ, Bool, true, false, List, ◌&&◌, if◌then◌else◌, ◌==◌, length}
use dnp.Link.Crc.{calc_crc}
use dnp.App.FunctionCode.{FunctionCode, read, function_code_to_type}
use dnp.App.FragmentHeader.{ApduHeader, empty_header, equals}

pub record RequestHistory : Type 0 where
  pub has_last : Bool
  pub last_header : ApduHeader
  pub last_digest : ℕ
  pub last_objects_length : ℕ

-- The constructor.
abbrev pub new_history : RequestHistory
new_history = record {
  has_last = false;
  last_header = empty_header;
  last_digest = 0;
  last_objects_length = 0;
}

unfoldable pub reset : RequestHistory → RequestHistory
reset h = record h { has_last = false }

unfoldable pub record_last_processed_request : ApduHeader → List ℕ → RequestHistory → RequestHistory
record_last_processed_request header objects h = record {
  has_last = true;
  last_header = header;
  last_objects_length = length objects;
  last_digest = calc_crc objects;
}

unfoldable pub get_last_header : RequestHistory → ApduHeader
get_last_header h = if h.has_last then h.last_header else empty_header

unfoldable pub equals_last_objects : List ℕ → RequestHistory → Bool
equals_last_objects objects h =
    h.has_last && (h.last_objects_length == length objects && (h.last_digest == calc_crc objects))

unfoldable pub fully_equals_last_request : ApduHeader → List ℕ → RequestHistory → Bool
fully_equals_last_request header objects h =
    equals h.last_header header && equals_last_objects objects h

-- What the state of the solicited responses is asked for; a repeated read is ignored.
pub data Request : Type 0 where
  ignored repeat_non_read new_read new_non_read : Request

unfoldable pub is_read : FunctionCode → Bool
is_read f = function_code_to_type f == function_code_to_type read

-- `ProcessNewRequest`: the sequence number of the solicited responses, and the call.
unfoldable pub process_new_request : ApduHeader → ℕ × Request
process_new_request header =
    (header.control.seq, if is_read header.function then new_read else new_non_read)

-- `OnReceiveSolRequest`
unfoldable pub on_receive_sol_request : ApduHeader → List ℕ → ℕ → RequestHistory → ℕ × Request
on_receive_sol_request header objects seq h =
    if h.has_last
    then (if seq == header.control.seq
        then (if fully_equals_last_request header objects h
            then (if is_read header.function then (seq, ignored) else (seq, repeat_non_read))
            else process_new_request header)
        else process_new_request header)
    else process_new_request header
