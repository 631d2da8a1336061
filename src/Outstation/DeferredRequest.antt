-- ===== src/Outstation/DeferredRequest.antt =====
-- opendnp3/outstation/DeferredRequest.h and DeferredRequest.cpp, with RSlice::CopyTo: the request that
-- waits until the outstation can answer again.
use dnp.Prelude.{
  ℕ, ◌≤◌, ◌≡◌, Bool, true, false, not, List, [], Option, none, some, if◌then◌else◌, ltb, length,
  arith, Bool-cases,
}
use dnp.App.FunctionCode.{FunctionCode}
use dnp.App.FragmentHeader.{ApduHeader, empty_header}

pub record DeferredRequest : Type 0 where
  pub is_set : Bool
  pub header : ApduHeader
  pub objects : List ℕ
  pub max_apdu_size : ℕ

-- The constructor.
unfoldable pub new_deferred : ℕ → DeferredRequest
new_deferred size = record {
  is_set = false;
  header = empty_header;
  objects = [];
  max_apdu_size = size;
}

unfoldable pub reset : DeferredRequest → DeferredRequest
reset d = record d { is_set = false }

unfoldable pub get_function : DeferredRequest → FunctionCode
get_function d = d.header.function

-- `RSlice::CopyTo`: the empty slice where there is no room.
unfoldable pub copy_to : List ℕ → ℕ → List ℕ
copy_to bytes room = if ltb room (length bytes) then [] else bytes

unfoldable pub set : ApduHeader → List ℕ → DeferredRequest → DeferredRequest
set header objects d = record d {
  is_set = true;
  header = header;
  objects = copy_to objects d.max_apdu_size;
}

-- `Process` with what the handler answers: the result, the call made, and the new state.
unfoldable pub process :
    (ApduHeader → List ℕ → Bool)
    → DeferredRequest
    → Bool × Option (ApduHeader × List ℕ) × DeferredRequest
process handler d =
    if d.is_set
    then (let processed = handler d.header d.objects in
        (processed, some (d.header, d.objects), record d { is_set = not processed }))
    else (false, none, d)

-- A request that fits the buffer is given to the handler as it was set, and it is given again, still
-- the same, exactly where the handler has not processed it; one that is set before takes its place.
pub process-set :
    (handler again : ApduHeader → List ℕ → Bool) (header : ApduHeader) (objects : List ℕ)
    (d : DeferredRequest)
    → length objects ≤ d.max_apdu_size
    → let first = process handler (set header objects d) in
      let second = process again first.2 in
      (first.1 ≡ some (header, objects))
      × (first.0 ≡ handler header objects)
      × (second.1 ≡ (if first.0 then none else some (header, objects)))
unfolding process set copy_to
process-set handler again header objects d h = ground (arith, Bool-cases (handler header objects))
