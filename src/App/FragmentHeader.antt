-- ===== src/App/FragmentHeader.antt =====
-- opendnp3/app/AppControlField.cpp, APDUHeader.h, APDUWrapper.cpp, APDUResponse.cpp and
-- parsing/APDUHeaderParser.cpp: the bytes in front of the objects of a fragment.
pub mod RoundTrip
use dnp.Prelude.{
  ℕ, zero, suc, ◌%◌, Bool, true, false, ◌&&◌, Option, none, some, List, [], ◌∷◌, if◌then◌else◌, ltb,
  ◌==◌, ◌!=◌, bit_and, bit_or, get_or, length,
}
use dnp.App.FunctionCode.{
  FunctionCode, confirm, unknown, function_code_to_type, function_code_from_type,
}
use dnp.App.IinField.{IinField}

pub record AppControlField : Type 0 where
  pub fir : Bool
  pub fin : Bool
  pub con : Bool
  pub uns : Bool
  pub seq : ℕ

abbrev pub fir_mask : ℕ
fir_mask = 0x80

abbrev pub fin_mask : ℕ
fin_mask = 0x40

abbrev pub con_mask : ℕ
con_mask = 0x20

abbrev pub uns_mask : ℕ
uns_mask = 0x10

abbrev pub seq_mask : ℕ
seq_mask = 0x0f

-- The constructor from a byte.
unfoldable pub of_byte : ℕ → AppControlField
of_byte byte = record {
  fir = bit_and byte fir_mask != 0;
  fin = bit_and byte fin_mask != 0;
  con = bit_and byte con_mask != 0;
  uns = bit_and byte uns_mask != 0;
  seq = bit_and byte seq_mask;
}

-- `AppControlField::Request`
unfoldable pub request_control : ℕ → AppControlField
request_control seq = record { fir = true; fin = true; con = false; uns = false; seq = seq }

-- `ToByte`
unfoldable pub to_byte : AppControlField → ℕ
to_byte c =
    let ret : ℕ = 0 in
    let ret1 = if c.fir then bit_or ret fir_mask else ret in
    let ret2 = if c.fin then bit_or ret1 fin_mask else ret1 in
    let ret3 = if c.con then bit_or ret2 con_mask else ret2 in
    let ret4 = if c.uns then bit_or ret3 uns_mask else ret3 in bit_or ret4 (c.seq % 16)

unfoldable pub is_fir_and_fin : AppControlField → Bool
is_fir_and_fin c = c.fir && c.fin

pub record ApduHeader : Type 0 where
  pub function : FunctionCode
  pub control : AppControlField

pub record ApduResponseHeader : Type 0 where
  pub function : FunctionCode
  pub control : AppControlField
  pub iin : IinField

-- The default constructor.
abbrev pub empty_header : ApduHeader
empty_header = record {
  function = unknown;
  control = record { fir = true; fin = true; con = false; uns = false; seq = 0 };
}

-- `APDUHeader::Confirm`
unfoldable pub confirm_header : ℕ → Bool → ApduHeader
confirm_header seq unsolicited = record {
  function = confirm;
  control = record { fir = true; fin = true; con = false; uns = unsolicited; seq = seq };
}

-- `APDUHeader::Equals`: the enumeration's values are compared.
unfoldable pub equals : ApduHeader → ApduHeader → Bool
equals h header =
    (function_code_to_type header.function == function_code_to_type h.function)
    && (to_byte header.control == to_byte h.control)

abbrev pub apdu_request_header_size : ℕ
apdu_request_header_size = 2

abbrev pub apdu_response_header_size : ℕ
apdu_response_header_size = 4

-- `ParseRequest`
unfoldable pub parse_request : List ℕ → Option ApduHeader
parse_request apdu =
    if ltb (length apdu) apdu_request_header_size
    then none
    else some record {
      function = function_code_from_type (get_or apdu 1 0);
      control = of_byte (get_or apdu 0 0);
    }

-- `ParseResponse`
unfoldable pub parse_response : List ℕ → Option ApduResponseHeader
parse_response apdu =
    if ltb (length apdu) apdu_response_header_size
    then none
    else some record {
      function = function_code_from_type (get_or apdu 1 0);
      control = of_byte (get_or apdu 0 0);
      iin = record { lsb = get_or apdu 2 0; msb = get_or apdu 3 0 };
    }

-- The store of a byte in the buffer of a fragment, which the constructors find long enough.
unfoldable pub put : ℕ → ℕ → List ℕ → List ℕ
put i value [] = []
put zero value (b ∷ bytes) = value ∷ bytes
put (suc i) value (b ∷ bytes) = b ∷ put i value bytes

-- `APDUWrapper::SetFunction` and `GetFunction`
unfoldable pub set_function : FunctionCode → List ℕ → List ℕ
set_function code buffer = put 1 (function_code_to_type code) buffer

unfoldable pub get_function : List ℕ → FunctionCode
get_function buffer = function_code_from_type (get_or buffer 1 0)

-- `APDUWrapper::SetControl` and `GetControl`
unfoldable pub set_control : AppControlField → List ℕ → List ℕ
set_control control buffer = put 0 (to_byte control) buffer

unfoldable pub get_control : List ℕ → AppControlField
get_control buffer = of_byte (get_or buffer 0 0)

-- `APDUResponse::SetIIN`
unfoldable pub set_iin : IinField → List ℕ → List ℕ
set_iin indications buffer = put 3 indications.msb (put 2 indications.lsb buffer)
