-- ===== src/App/IinField.antt =====
-- opendnp3/app/IINField.h and IINField.cpp: the internal indications of an outstation.
pub mod Laws
use dnp.Prelude.{
  ℕ, ◌-◌, ◌%◌, ◌^◌, ◌<◌, ◌≡◌, refl, Bool, true, false, ◌&&◌, if◌then◌else◌, ltb, ◌==◌, ◌!=◌,
  bit_and, bit_or,
}

pub data IinBit : Type 0 where
  all_stations class1_events class2_events class3_events need_time local_control : IinBit
  device_trouble device_restart func_not_supported object_unknown param_error : IinBit
  event_buffer_overflow already_executing config_corrupt reserved1 reserved2 : IinBit

pub record IinField : Type 0 where
  pub lsb : ℕ
  pub msb : ℕ

-- `IINField::Empty`
abbrev pub empty_iin : IinField
empty_iin = record { lsb = 0; msb = 0 }

-- The byte of a bit: whether its mask is one of `LSBMask`.
unfoldable pub in_lsb : IinBit → Bool
in_lsb all_stations = true
in_lsb class1_events = true
in_lsb class2_events = true
in_lsb class3_events = true
in_lsb need_time = true
in_lsb local_control = true
in_lsb device_trouble = true
in_lsb device_restart = true
in_lsb _ = false

-- `LSBMask` and `MSBMask`
unfoldable pub mask : IinBit → ℕ
mask all_stations = 0x01
mask class1_events = 0x02
mask class2_events = 0x04
mask class3_events = 0x08
mask need_time = 0x10
mask local_control = 0x20
mask device_trouble = 0x40
mask device_restart = 0x80
mask func_not_supported = 0x01
mask object_unknown = 0x02
mask param_error = 0x04
mask event_buffer_overflow = 0x08
mask already_executing = 0x10
mask config_corrupt = 0x20
mask reserved1 = 0x40
mask reserved2 = 0x80

-- `REQUEST_ERROR_MASK`
abbrev pub request_error_mask : ℕ
request_error_mask = bit_or (bit_or 0x01 0x02) 0x04

-- `Get`, `Set` and `Clear` on the byte of the mask.
unfoldable pub get_mask : ℕ → ℕ → Bool
get_mask byte m = bit_and byte m != 0

unfoldable pub put_mask : Bool → ℕ → ℕ → ℕ
put_mask value byte m = if value then bit_or byte m else bit_and byte (255 - m)

unfoldable pub is_set : IinBit → IinField → Bool
is_set bit f = if in_lsb bit then get_mask f.lsb (mask bit) else get_mask f.msb (mask bit)

unfoldable pub set_bit : IinBit → IinField → IinField
set_bit bit f =
    if in_lsb bit
    then record f { lsb = put_mask true f.lsb (mask bit) }
    else record f { msb = put_mask true f.msb (mask bit) }

unfoldable pub clear_bit : IinBit → IinField → IinField
clear_bit bit f =
    if in_lsb bit
    then record f { lsb = put_mask false f.lsb (mask bit) }
    else record f { msb = put_mask false f.msb (mask bit) }

unfoldable pub set_bit_to_value : IinBit → Bool → IinField → IinField
set_bit_to_value bit value f = if value then set_bit bit f else clear_bit bit f

-- The constructor from a bit.
unfoldable pub iin_of_bit : IinBit → IinField
iin_of_bit bit = set_bit bit empty_iin

unfoldable pub has_request_error : IinField → Bool
has_request_error f = get_mask f.msb request_error_mask

-- `operator|`
unfoldable pub union_iin : IinField → IinField → IinField
union_iin f g = record { lsb = bit_or f.lsb g.lsb; msb = bit_or f.msb g.msb }
