-- ===== src/App/FunctionCode.antt =====
-- opendnp3/gen/FunctionCode.h and FunctionCode.cpp: the function of a fragment.
use dnp.Prelude.{ℕ, ◌≡◌, refl, none, some, List, [], ◌∷◌}
use dnp.App.Objects.{find_entry}

pub data FunctionCode : Type 0 where
  confirm read write select operate direct_operate direct_operate_nr immed_freeze : FunctionCode
  immed_freeze_nr freeze_clear freeze_clear_nr freeze_at_time freeze_at_time_nr : FunctionCode
  cold_restart warm_restart initialize_data initialize_application start_application : FunctionCode
  stop_application save_configuration enable_unsolicited disable_unsolicited : FunctionCode
  assign_class delay_measure record_current_time open_file close_file delete_file : FunctionCode
  get_file_info authenticate_file abort_file auth_request auth_request_no_ack : FunctionCode
  response unsolicited_response auth_response unknown : FunctionCode

unfoldable pub function_code_to_type : FunctionCode → ℕ
function_code_to_type confirm = 0x0
function_code_to_type read = 0x1
function_code_to_type write = 0x2
function_code_to_type select = 0x3
function_code_to_type operate = 0x4
function_code_to_type direct_operate = 0x5
function_code_to_type direct_operate_nr = 0x6
function_code_to_type immed_freeze = 0x7
function_code_to_type immed_freeze_nr = 0x8
function_code_to_type freeze_clear = 0x9
function_code_to_type freeze_clear_nr = 0xA
function_code_to_type freeze_at_time = 0xB
function_code_to_type freeze_at_time_nr = 0xC
function_code_to_type cold_restart = 0xD
function_code_to_type warm_restart = 0xE
function_code_to_type initialize_data = 0xF
function_code_to_type initialize_application = 0x10
function_code_to_type start_application = 0x11
function_code_to_type stop_application = 0x12
function_code_to_type save_configuration = 0x13
function_code_to_type enable_unsolicited = 0x14
function_code_to_type disable_unsolicited = 0x15
function_code_to_type assign_class = 0x16
function_code_to_type delay_measure = 0x17
function_code_to_type record_current_time = 0x18
function_code_to_type open_file = 0x19
function_code_to_type close_file = 0x1A
function_code_to_type delete_file = 0x1B
function_code_to_type get_file_info = 0x1C
function_code_to_type authenticate_file = 0x1D
function_code_to_type abort_file = 0x1E
function_code_to_type auth_request = 0x20
function_code_to_type auth_request_no_ack = 0x21
function_code_to_type response = 0x81
function_code_to_type unsolicited_response = 0x82
function_code_to_type auth_response = 0x83
function_code_to_type unknown = 0xFF

-- The cases of `FunctionCodeFromType`.
abbrev pub known_functions : List (ℕ × FunctionCode)
known_functions =
    (0x00, confirm)
    ∷ (0x01, read)
    ∷ (0x02, write)
    ∷ (0x03, select)
    ∷ (0x04, operate)
    ∷ (0x05, direct_operate)
    ∷ (0x06, direct_operate_nr)
    ∷ (0x07, immed_freeze)
    ∷ (0x08, immed_freeze_nr)
    ∷ (0x09, freeze_clear)
    ∷ (0x0a, freeze_clear_nr)
    ∷ (0x0b, freeze_at_time)
    ∷ (0x0c, freeze_at_time_nr)
    ∷ (0x0d, cold_restart)
    ∷ (0x0e, warm_restart)
    ∷ (0x0f, initialize_data)
    ∷ (0x10, initialize_application)
    ∷ (0x11, start_application)
    ∷ (0x12, stop_application)
    ∷ (0x13, save_configuration)
    ∷ (0x14, enable_unsolicited)
    ∷ (0x15, disable_unsolicited)
    ∷ (0x16, assign_class)
    ∷ (0x17, delay_measure)
    ∷ (0x18, record_current_time)
    ∷ (0x19, open_file)
    ∷ (0x1a, close_file)
    ∷ (0x1b, delete_file)
    ∷ (0x1c, get_file_info)
    ∷ (0x1d, authenticate_file)
    ∷ (0x1e, abort_file)
    ∷ (0x20, auth_request)
    ∷ (0x21, auth_request_no_ack)
    ∷ (0x81, response)
    ∷ (0x82, unsolicited_response)
    ∷ (0x83, auth_response)
    ∷ []

unfoldable pub function_code_from_type : ℕ → FunctionCode
unfolding find_entry
function_code_from_type type = elim (find_entry type known_functions) [
  | none ↦ unknown
  | some function ↦ function
]

-- Every function is found again from its number.
pub function_code_from_type-to_type :
    (f : FunctionCode) → function_code_from_type (function_code_to_type f) ≡ f
unfolding function_code_to_type function_code_from_type
function_code_from_type-to_type confirm = refl
function_code_from_type-to_type read = refl
function_code_from_type-to_type write = refl
function_code_from_type-to_type select = refl
function_code_from_type-to_type operate = refl
function_code_from_type-to_type direct_operate = refl
function_code_from_type-to_type direct_operate_nr = refl
function_code_from_type-to_type immed_freeze = refl
function_code_from_type-to_type immed_freeze_nr = refl
function_code_from_type-to_type freeze_clear = refl
function_code_from_type-to_type freeze_clear_nr = refl
function_code_from_type-to_type freeze_at_time = refl
function_code_from_type-to_type freeze_at_time_nr = refl
function_code_from_type-to_type cold_restart = refl
function_code_from_type-to_type warm_restart = refl
function_code_from_type-to_type initialize_data = refl
function_code_from_type-to_type initialize_application = refl
function_code_from_type-to_type start_application = refl
function_code_from_type-to_type stop_application = refl
function_code_from_type-to_type save_configuration = refl
function_code_from_type-to_type enable_unsolicited = refl
function_code_from_type-to_type disable_unsolicited = refl
function_code_from_type-to_type assign_class = refl
function_code_from_type-to_type delay_measure = refl
function_code_from_type-to_type record_current_time = refl
function_code_from_type-to_type open_file = refl
function_code_from_type-to_type close_file = refl
function_code_from_type-to_type delete_file = refl
function_code_from_type-to_type get_file_info = refl
function_code_from_type-to_type authenticate_file = refl
function_code_from_type-to_type abort_file = refl
function_code_from_type-to_type auth_request = refl
function_code_from_type-to_type auth_request_no_ack = refl
function_code_from_type-to_type response = refl
function_code_from_type-to_type unsolicited_response = refl
function_code_from_type-to_type auth_response = refl
function_code_from_type-to_type unknown = refl
