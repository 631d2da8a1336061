-- ===== src/Link/Header.antt =====
-- link/LinkHeader.h, LinkHeader.cpp and LinkHeaderFields.h: the ten bytes in front of a frame.
use dnp.Prelude.{ℕ, ◌-◌, Bool, List, ◌∷◌, ◌++◌, if◌then◌else◌, ltb, ◌!=◌, get_or, bit_and, bit_or}
use dnp.Openpal.Serialization.{read_u16, write_u16}
use dnp.Link.Crc.{add_crc}
use dnp.Link.Function.{
  LinkFunction, link_function_to_type, link_function_from_type, li_length, li_control,
  li_destination, li_source, mask_dir, mask_prm, mask_fcb, mask_fcv, mask_func_or_prm,
}

pub record LinkHeader : Type 0 where
  pub length : ℕ
  pub src : ℕ
  pub dest : ℕ
  pub ctrl : ℕ

-- What the sink of a frame is told.
pub record LinkHeaderFields : Type 0 where
  pub func : LinkFunction
  pub is_from_master : Bool
  pub fcb : Bool
  pub fcvdfc : Bool
  pub dest : ℕ
  pub src : ℕ

-- The default constructor.
abbrev pub empty_header : LinkHeader
empty_header = record { length = 5; src = 0; dest = 0; ctrl = 0 }

-- `ControlByte`
unfoldable pub control_byte : Bool → Bool → Bool → LinkFunction → ℕ
control_byte is_master fcb fcvdfc func =
    let ret = link_function_to_type func in
    let ret1 = if is_master then bit_or ret mask_dir else ret in
    let ret2 = if fcb then bit_or ret1 mask_fcb else ret1 in
    if fcvdfc then bit_or ret2 mask_fcv else ret2

-- `Set`, and the constructor that calls it.
unfoldable pub set_header : ℕ → ℕ → ℕ → Bool → Bool → Bool → LinkFunction → LinkHeader
set_header len src dest is_from_master fcvdfc fcb func = record {
  length = len;
  src = src;
  dest = dest;
  ctrl = control_byte is_from_master fcb fcvdfc func;
}

-- `ChangeFCB`: `~MASK_FCB` on a byte.
unfoldable pub change_fcb : Bool → LinkHeader → LinkHeader
change_fcb fcb h = record h {
  ctrl = if fcb then bit_or h.ctrl mask_fcb else bit_and h.ctrl (255 - mask_fcb);
}

unfoldable pub is_from_master : LinkHeader → Bool
is_from_master h = bit_and h.ctrl mask_dir != 0

unfoldable pub is_pri_to_sec : LinkHeader → Bool
is_pri_to_sec h = bit_and h.ctrl mask_prm != 0

unfoldable pub is_fcb_set : LinkHeader → Bool
is_fcb_set h = bit_and h.ctrl mask_fcb != 0

unfoldable pub is_fcv_dfc_set : LinkHeader → Bool
is_fcv_dfc_set h = bit_and h.ctrl mask_fcv != 0

unfoldable pub get_func_enum : LinkHeader → LinkFunction
get_func_enum h = link_function_from_type (bit_and h.ctrl mask_func_or_prm)

unfoldable pub valid_length : LinkHeader → Bool
valid_length h = ltb 4 h.length

-- `Read`
unfoldable pub read_header : List ℕ → LinkHeader
read_header bytes = record {
  length = get_or bytes li_length 0;
  src = read_u16 bytes li_source;
  dest = read_u16 bytes li_destination;
  ctrl = get_or bytes li_control 0;
}

-- The eight bytes that `Write` stores in front of the checksum.
abbrev pub header_bytes : LinkHeader → List ℕ
header_bytes h = 0x05 ∷ 0x64 ∷ h.length ∷ h.ctrl ∷ (write_u16 h.dest ++ write_u16 h.src)

-- `Write`
unfoldable pub write_header : LinkHeader → List ℕ
write_header h = header_bytes h ++ add_crc (header_bytes h)

-- The fields as `PushFrame` collects them.
unfoldable pub header_fields : LinkHeader → LinkHeaderFields
header_fields h = record {
  func = get_func_enum h;
  is_from_master = is_from_master h;
  fcb = is_fcb_set h;
  fcvdfc = is_fcv_dfc_set h;
  dest = h.dest;
  src = h.src;
}
