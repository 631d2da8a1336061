-- ===== src/Link/HeaderLaws.antt =====
-- What is written into a header is read back.
use dnp.Prelude.{ℕ, ◌<◌, ◌≡◌, ◌≢◌, refl, Bool, true, false, List, ◌++◌, arith}
use dnp.Openpal.Serialization.{read-write_u16}
use dnp.Link.Function.{
  LinkFunction, link_function_from_type, pri_reset_link_states, pri_test_link_states,
  pri_confirmed_user_data, pri_unconfirmed_user_data, pri_request_link_status, invalid,
}
use dnp.Link.Header.{
  LinkHeader, control_byte, set_header, is_from_master, is_pri_to_sec, is_fcb_set, is_fcv_dfc_set,
  get_func_enum, read_header, write_header, header_fields,
}

-- A header with addresses of 16 bits that is written in front of any bytes is read back.
pub read-write_header :
    (h : LinkHeader) (rest : List ℕ)
    → h.dest < 65536
    → h.src < 65536
    → read_header (write_header h ++ rest) ≡ h
unfolding read_header write_header
read-write_header h rest hd hs = ground (arith, read-write_u16 h.dest hd, read-write_u16 h.src hs)

-- The functions of the primary station have the PRM bit.
abbrev pub is_primary : LinkFunction → Bool
is_primary pri_reset_link_states = true
is_primary pri_test_link_states = true
is_primary pri_confirmed_user_data = true
is_primary pri_unconfirmed_user_data = true
is_primary pri_request_link_status = true
is_primary _ = false

ControlFields : Bool → Bool → Bool → LinkFunction → Type 0
ControlFields m b v f =
    let h : LinkHeader = record { length = 0; src = 0; dest = 0; ctrl = control_byte m b v f } in
    (get_func_enum h ≡ f)
    × (is_from_master h ≡ m)
    × (is_fcb_set h ≡ b)
    × (is_fcv_dfc_set h ≡ v)
    × (is_pri_to_sec h ≡ is_primary f)

control_byte_fields : (m b v : Bool) (f : LinkFunction) → f ≢ invalid → ControlFields m b v f
unfolding ControlFields control_byte get_func_enum is_from_master is_fcb_set is_fcv_dfc_set
    is_pri_to_sec link_function_from_type
control_byte_fields true true true invalid h = absurd (h refl)
control_byte_fields true true true _ h = (refl, refl, refl, refl, refl)
control_byte_fields true true false invalid h = absurd (h refl)
control_byte_fields true true false _ h = (refl, refl, refl, refl, refl)
control_byte_fields true false true invalid h = absurd (h refl)
control_byte_fields true false true _ h = (refl, refl, refl, refl, refl)
control_byte_fields true false false invalid h = absurd (h refl)
control_byte_fields true false false _ h = (refl, refl, refl, refl, refl)
control_byte_fields false true true invalid h = absurd (h refl)
control_byte_fields false true true _ h = (refl, refl, refl, refl, refl)
control_byte_fields false true false invalid h = absurd (h refl)
control_byte_fields false true false _ h = (refl, refl, refl, refl, refl)
control_byte_fields false false true invalid h = absurd (h refl)
control_byte_fields false false true _ h = (refl, refl, refl, refl, refl)
control_byte_fields false false false invalid h = absurd (h refl)
control_byte_fields false false false _ h = (refl, refl, refl, refl, refl)

-- A header of any function, direction and flags, with addresses of 16 bits, that is written in front
-- of any bytes is read back with the fields that it was set to; PRM tells a function of the primary
-- station from one of the secondary.
pub header_fields-set :
    (len src dest : ℕ) (m fcvdfc fcb : Bool) (f : LinkFunction) (rest : List ℕ)
    → src < 65536
    → dest < 65536
    → f ≢ invalid
    → let h = read_header (write_header (set_header len src dest m fcvdfc fcb f) ++ rest) in
      (header_fields h ≡ record {
        func = f;
        is_from_master = m;
        fcb = fcb;
        fcvdfc = fcvdfc;
        dest = dest;
        src = src;
      })
      × (h.length ≡ len)
      × (is_pri_to_sec h ≡ is_primary f)
unfolding set_header header_fields ControlFields get_func_enum is_from_master is_fcb_set
    is_fcv_dfc_set is_pri_to_sec
header_fields-set len src dest m fcvdfc fcb f rest hs hd hf = ground (
  arith,
  read-write_header (set_header len src dest m fcvdfc fcb f) rest hd hs,
  control_byte_fields m fcb fcvdfc f hf,
)
