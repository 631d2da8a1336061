-- ===== src/Link/Validation.antt =====
-- `ValidateFunctionCode` and `ValidateHeaderParameters` of link/LinkLayerParser.cpp.
use dnp.Prelude.{ℕ, ◌+◌, ◌-◌, ◌%◌, Bool, false, not, if◌then◌else◌, ltb}
use dnp.Link.Function.{
  LinkFunction, lpdu_min_length, is_user_data, pri_reset_link_states, pri_test_link_states,
  pri_confirmed_user_data, pri_unconfirmed_user_data, pri_request_link_status, sec_ack, sec_nack,
  sec_link_status, sec_not_supported,
}
use dnp.Link.Header.{LinkHeader, is_pri_to_sec, is_fcb_set, is_fcv_dfc_set, get_func_enum}

-- The branch for frames of the primary station: is the function known, and is FCV as it requires?
abbrev pub valid_pri_function : LinkFunction → Bool → Bool
valid_pri_function pri_confirmed_user_data fcv = fcv
valid_pri_function pri_test_link_states fcv = fcv
valid_pri_function pri_request_link_status fcv = not fcv
valid_pri_function pri_reset_link_states fcv = not fcv
valid_pri_function pri_unconfirmed_user_data fcv = not fcv
valid_pri_function _ fcv = false

-- The branch for frames of the secondary station: FCB is never set.
abbrev pub valid_sec_function : LinkFunction → Bool → Bool
valid_sec_function sec_ack fcb = not fcb
valid_sec_function sec_nack fcb = not fcb
valid_sec_function sec_link_status fcb = not fcb
valid_sec_function sec_not_supported fcb = not fcb
valid_sec_function _ fcb = false

-- `ValidateFunctionCode`
unfoldable pub validate_function_code : LinkHeader → Bool
validate_function_code h =
    if is_pri_to_sec h
    then valid_pri_function (get_func_enum h) (is_fcv_dfc_set h)
    else valid_sec_function (get_func_enum h) (is_fcb_set h)

-- `uint8_t user_data_length = header.GetLength() - LPDU_MIN_LENGTH`
abbrev pub user_data_length : LinkHeader → ℕ
user_data_length h = (h.length + 256 - lpdu_min_length) % 256

-- The two tests of the payload against the function; the second repeats the first.
unfoldable pub validate_payload : LinkHeader → Bool
validate_payload h =
    let n = user_data_length h in
    let first = if is_user_data (get_func_enum h) then ltb 0 n else not (ltb 0 n) in
    if first
    then (if ltb 0 n then is_user_data (get_func_enum h) else not (is_user_data (get_func_enum h)))
    else false
