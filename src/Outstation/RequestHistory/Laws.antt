-- ===== src/Outstation/RequestHistory/Laws.antt =====
-- A request that is sent again is told from a new one.
use dnp.Prelude.{ℕ, ◌<◌, ◌≡◌, ◌≢◌, List, ◌∷◌, ◌++◌, if◌then◌else◌, All, arith}
use dnp.Link.Crc.Errors.{calc_crc-change}
use dnp.App.FragmentHeader.{ApduHeader, equals}
use dnp.Outstation.RequestHistory.{
  RequestHistory, ignored, repeat_non_read, is_read, record_last_processed_request,
  equals_last_objects, fully_equals_last_request, process_new_request, on_receive_sol_request,
}

-- The request that was processed last, received again, is not processed as a new one: a read is
-- ignored, and any other request is answered as a repeated one.
pub on_receive_sol_request-repeat :
    (header : ApduHeader) (objects : List ℕ) (h : RequestHistory)
    → on_receive_sol_request header objects
        (process_new_request header).0
        (record_last_processed_request header objects h)
      ≡ (header.control.seq, if is_read header.function then ignored else repeat_non_read)
unfolding on_receive_sol_request record_last_processed_request fully_equals_last_request equals
    equals_last_objects process_new_request
on_receive_sol_request-repeat header objects h = ground arith

-- A request whose objects differ from those of the last one in exactly one byte is processed as a
-- new one, whatever the headers.
pub on_receive_sol_request-new :
    (header last : ApduHeader) (before : List ℕ) (a b : ℕ) (behind : List ℕ) (seq : ℕ)
    (h : RequestHistory)
    → All (λ x. x < 256) (before ++ a ∷ behind)
    → All (λ x. x < 256) (before ++ b ∷ behind)
    → a ≢ b
    → on_receive_sol_request header
        (before ++ b ∷ behind)
        seq
        (record_last_processed_request last (before ++ a ∷ behind) h)
      ≡ process_new_request header
unfolding on_receive_sol_request record_last_processed_request fully_equals_last_request
    equals_last_objects
on_receive_sol_request-new header last before a b behind seq h ha hb ne =
    let differ = calc_crc-change before a b behind ha hb ne in ground (arith, differ)
