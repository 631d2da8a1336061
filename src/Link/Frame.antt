-- ===== src/Link/Frame.antt =====
-- link/LinkFrame.h and LinkFrame.cpp: the blocks of user data with their checksums, and the frames
-- that the layer sends. The `while` loops take fuel: the number of bytes left, which falls by at least
-- one in each round, is enough.
use dnp.Prelude.{
  ℕ, zero, suc, ◌+◌, ◌-◌, ◌*◌, ◌/◌, ◌%◌, Bool, true, false, List, [], ◌++◌, if◌then◌else◌, ltb, leb,
  length, take, drop, write_at,
}
use dnp.Link.Crc.{add_crc, is_correct_crc}
use dnp.Link.Function.{
  LinkFunction, lpdu_min_length, lpdu_header_size, lpdu_data_block_size, lpdu_crc_size,
  lpdu_data_plus_crc_size, pri_reset_link_states, pri_test_link_states, pri_confirmed_user_data,
  pri_unconfirmed_user_data, pri_request_link_status, sec_ack, sec_nack, sec_link_status,
  sec_not_supported,
}
use dnp.Link.Header.{set_header, write_header}

-- The bytes of the next block.
unfoldable pub block_size : ℕ → ℕ
block_size n = if leb n lpdu_data_block_size then n else lpdu_data_block_size

-- `CalcUserDataSize`
unfoldable pub calc_user_data_size : ℕ → ℕ
calc_user_data_size n =
    if ltb 0 n
    then (let mod16 = n % lpdu_data_block_size in
        let size = n / lpdu_data_block_size * lpdu_data_plus_crc_size in
        if ltb 0 mod16 then size + mod16 + lpdu_crc_size else size)
    else 0

-- `CalcFrameSize`
unfoldable pub calc_frame_size : ℕ → ℕ
calc_frame_size n = lpdu_header_size + calc_user_data_size n

-- `WriteUserData`: the bytes written for `n` bytes of the source.
unfoldable pub write_blocks : ℕ → List ℕ → ℕ → List ℕ
write_blocks zero src n = []
write_blocks (suc fuel) src n =
    let num = block_size n in
    let rest = write_blocks fuel (drop num src) (n - num) in
    if ltb 0 n then take num src ++ (add_crc (take num src) ++ rest) else []

abbrev pub write_user_data : List ℕ → ℕ → List ℕ
write_user_data src n = write_blocks n src n

-- `ValidateBodyCRC`
unfoldable pub validate_blocks : ℕ → List ℕ → ℕ → Bool
validate_blocks zero body n = true
validate_blocks (suc fuel) body n =
    let num = block_size n in
    let rest = validate_blocks fuel (drop (num + 2) body) (n - num) in
    if ltb 0 n then (if is_correct_crc body num then rest else false) else true

abbrev pub validate_body_crc : List ℕ → ℕ → Bool
validate_body_crc body n = validate_blocks n body n

-- `ReadUserData`, where both pointers lead into one buffer: the data at `src` moves to `dest`.
unfoldable pub read_blocks : ℕ → List ℕ → ℕ → ℕ → ℕ → List ℕ
read_blocks zero buf src dest n = buf
read_blocks (suc fuel) buf src dest n =
    let num = block_size n in
    let rest =
      read_blocks fuel (write_at dest (take num (drop src buf)) buf) (src + (num + 2)) (dest + num)
        (n - num) in
    if ltb 0 n then rest else buf

abbrev pub read_user_data : List ℕ → ℕ → ℕ → ℕ → List ℕ
read_user_data buf src dest n = read_blocks n buf src dest n

-- `FormatHeader`
unfoldable pub format_header : ℕ → Bool → Bool → Bool → LinkFunction → ℕ → ℕ → List ℕ
format_header data_length is_master fcb fcvdfc func dest src =
    write_header
      (set_header ((data_length + lpdu_min_length) % 256) src dest is_master fcvdfc fcb func)

unfoldable pub format_ack : Bool → Bool → ℕ → ℕ → List ℕ
format_ack is_master rcv_buff_full dest src =
    format_header 0 is_master false rcv_buff_full sec_ack dest src

unfoldable pub format_nack : Bool → Bool → ℕ → ℕ → List ℕ
format_nack is_master rcv_buff_full dest src =
    format_header 0 is_master false rcv_buff_full sec_nack dest src

unfoldable pub format_link_status : Bool → Bool → ℕ → ℕ → List ℕ
format_link_status is_master rcv_buff_full dest src =
    format_header 0 is_master false rcv_buff_full sec_link_status dest src

unfoldable pub format_not_supported : Bool → Bool → ℕ → ℕ → List ℕ
format_not_supported is_master rcv_buff_full dest src =
    format_header 0 is_master false rcv_buff_full sec_not_supported dest src

unfoldable pub format_reset_link_states : Bool → ℕ → ℕ → List ℕ
format_reset_link_states is_master dest src =
    format_header 0 is_master false false pri_reset_link_states dest src

unfoldable pub format_request_link_status : Bool → ℕ → ℕ → List ℕ
format_request_link_status is_master dest src =
    format_header 0 is_master false false pri_request_link_status dest src

unfoldable pub format_test_link_status : Bool → Bool → ℕ → ℕ → List ℕ
format_test_link_status is_master fcb dest src =
    format_header 0 is_master fcb true pri_test_link_states dest src

-- `FormatConfirmedUserData`, which asserts 0 < length <= 250.
unfoldable pub format_confirmed_user_data : Bool → Bool → ℕ → ℕ → List ℕ → List ℕ
format_confirmed_user_data is_master fcb dest src payload =
    format_header (length payload) is_master fcb true pri_confirmed_user_data dest src
    ++ write_user_data payload (length payload)

-- `FormatUnconfirmedUserData`, with the same assertions.
unfoldable pub format_unconfirmed_user_data : Bool → ℕ → ℕ → List ℕ → List ℕ
format_unconfirmed_user_data is_master dest src payload =
    format_header (length payload) is_master false false pri_unconfirmed_user_data dest src
    ++ write_user_data payload (length payload)
