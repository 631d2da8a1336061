-- ===== src/Link/Function.antt =====
-- gen/LinkFunction.h and LinkFunction.cpp, LinkLayerConstants.h: function codes and the constants of
-- the frame format.
use dnp.Prelude.{ℕ, Bool, true, false, if◌then◌else◌, ◌==◌}

abbrev pub lpdu_min_length : ℕ
lpdu_min_length = 5

abbrev pub lpdu_header_size : ℕ
lpdu_header_size = 10

abbrev pub lpdu_data_block_size : ℕ
lpdu_data_block_size = 16

abbrev pub lpdu_crc_size : ℕ
lpdu_crc_size = 2

abbrev pub lpdu_data_plus_crc_size : ℕ
lpdu_data_plus_crc_size = 18

abbrev pub lpdu_max_user_data_size : ℕ
lpdu_max_user_data_size = 250

abbrev pub lpdu_max_frame_size : ℕ
lpdu_max_frame_size = 292

-- Where a header's fields stand.
abbrev pub li_length : ℕ
li_length = 2

abbrev pub li_control : ℕ
li_control = 3

abbrev pub li_destination : ℕ
li_destination = 4

abbrev pub li_source : ℕ
li_source = 6

abbrev pub li_crc : ℕ
li_crc = 8

-- Masks of the control byte.
abbrev pub mask_dir : ℕ
mask_dir = 0x80

abbrev pub mask_prm : ℕ
mask_prm = 0x40

abbrev pub mask_fcb : ℕ
mask_fcb = 0x20

abbrev pub mask_fcv : ℕ
mask_fcv = 0x10

abbrev pub mask_func_or_prm : ℕ
mask_func_or_prm = 0x4f

pub data LinkFunction : Type 0 where
  pri_reset_link_states pri_test_link_states pri_confirmed_user_data : LinkFunction
  pri_unconfirmed_user_data pri_request_link_status : LinkFunction
  sec_ack sec_nack sec_link_status sec_not_supported invalid : LinkFunction

-- `LinkFunctionToType`
abbrev pub link_function_to_type : LinkFunction → ℕ
link_function_to_type pri_reset_link_states = 0x40
link_function_to_type pri_test_link_states = 0x42
link_function_to_type pri_confirmed_user_data = 0x43
link_function_to_type pri_unconfirmed_user_data = 0x44
link_function_to_type pri_request_link_status = 0x49
link_function_to_type sec_ack = 0x0
link_function_to_type sec_nack = 0x1
link_function_to_type sec_link_status = 0xb
link_function_to_type sec_not_supported = 0xf
link_function_to_type invalid = 0xff

-- `LinkFunctionFromType`
unfoldable pub link_function_from_type : ℕ → LinkFunction
link_function_from_type n =
    if n == 0x40
    then pri_reset_link_states
    else if n == 0x42
    then pri_test_link_states
    else if n == 0x43
    then pri_confirmed_user_data
    else if n == 0x44
    then pri_unconfirmed_user_data
    else if n == 0x49
    then pri_request_link_status
    else if n == 0x0
    then sec_ack
    else if n == 0x1
    then sec_nack
    else if n == 0xb
    then sec_link_status
    else if n == 0xf
    then sec_not_supported
    else invalid

-- The functions that carry user data, and those of the primary station.
abbrev pub is_user_data : LinkFunction → Bool
is_user_data pri_confirmed_user_data = true
is_user_data pri_unconfirmed_user_data = true
is_user_data _ = false
