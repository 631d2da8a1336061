-- ===== src/App/IinField/Laws.antt =====
-- The bits of an indication field are independent of each other.
use dnp.Prelude.{
  bool_eq-true, ℕ, ◌%◌, ◌^◌, ◌<◌, ◌≡◌, refl, Bool, true, false, ◌&&◌, if◌then◌else◌, ltb, ◌==◌,
  every_below, every_below_lem, bool_eq, arith,
}
use dnp.App.IinField.{
  IinBit, all_stations, class1_events, class2_events, class3_events, need_time, local_control,
  device_trouble, device_restart, func_not_supported, object_unknown, param_error,
  event_buffer_overflow, already_executing, config_corrupt, reserved1, reserved2, IinField, in_lsb,
  mask, get_mask, put_mask, is_set, set_bit, clear_bit, set_bit_to_value,
}

-- The number of a bit in the enumeration.
abbrev pub position : IinBit → ℕ
position all_stations = 0
position class1_events = 1
position class2_events = 2
position class3_events = 3
position need_time = 4
position local_control = 5
position device_trouble = 6
position device_restart = 7
position func_not_supported = 8
position object_unknown = 9
position param_error = 10
position event_buffer_overflow = 11
position already_executing = 12
position config_corrupt = 13
position reserved1 = 14
position reserved2 = 15

mask_table : Bool → ℕ → ℕ → ℕ → Bool
unfolding get_mask put_mask
mask_table value i j byte =
    bool_eq (get_mask (put_mask value byte (2 ^ i)) (2 ^ j))
      (if i == j then value else get_mask byte (2 ^ j))
    && ltb (put_mask value byte (2 ^ i)) 256

byte_table : Bool → Bool
unfolding every_below mask_table
byte_table value = every_below 8 (λ i. every_below 8 (λ j. every_below 256 (mask_table value i j)))

byte_table_holds : (value : Bool) → byte_table value ≡ true
unfolding byte_table every_below mask_table
byte_table_holds true = refl
byte_table_holds false = refl

mask_table_lem :
    (value : Bool) (i j byte : ℕ) → i < 8 → j < 8 → byte < 256 → mask_table value i j byte ≡ true
unfolding byte_table
mask_table_lem value i j byte hi hj hb = every_below_lem 256 (mask_table value i j) byte hb (
    every_below_lem 8 (λ j. every_below 256 (mask_table value i j)) j hj
      (every_below_lem 8 (λ i. every_below 8 (λ j. every_below 256 (mask_table value i j))) i hi
        (byte_table_holds value)))

-- One byte.
get-put_mask :
    (value : Bool) (i j byte : ℕ)
    → i < 8
    → j < 8
    → byte < 256
    → get_mask (put_mask value byte (2 ^ i)) (2 ^ j)
      ≡ (if i == j then value else get_mask byte (2 ^ j))
unfolding mask_table
get-put_mask value i j byte hi hj hb =
    bool_eq-true _ _ (ground (arith, mask_table_lem value i j byte hi hj hb))

Positioned : IinBit → Type 0
Positioned b = (mask b ≡ 2 ^ (position b % 8)) × (in_lsb b ≡ ltb (position b) 8) × (position b < 16)

position-Positioned : (b : IinBit) → Positioned b
unfolding Positioned mask in_lsb
position-Positioned all_stations = (refl, refl, omega arith)
position-Positioned class1_events = (refl, refl, omega arith)
position-Positioned class2_events = (refl, refl, omega arith)
position-Positioned class3_events = (refl, refl, omega arith)
position-Positioned need_time = (refl, refl, omega arith)
position-Positioned local_control = (refl, refl, omega arith)
position-Positioned device_trouble = (refl, refl, omega arith)
position-Positioned device_restart = (refl, refl, omega arith)
position-Positioned func_not_supported = (refl, refl, omega arith)
position-Positioned object_unknown = (refl, refl, omega arith)
position-Positioned param_error = (refl, refl, omega arith)
position-Positioned event_buffer_overflow = (refl, refl, omega arith)
position-Positioned already_executing = (refl, refl, omega arith)
position-Positioned config_corrupt = (refl, refl, omega arith)
position-Positioned reserved1 = (refl, refl, omega arith)
position-Positioned reserved2 = (refl, refl, omega arith)

-- After an indication in a field of two bytes is set to a value, it has this value, and every other
-- one is as it was.
pub is_set-set_bit_to_value :
    (bit other : IinBit) (value : Bool) (f : IinField)
    → f.lsb < 256
    → f.msb < 256
    → is_set other (set_bit_to_value bit value f)
      ≡ (if position bit == position other then value else is_set other f)
unfolding is_set set_bit_to_value set_bit clear_bit Positioned
is_set-set_bit_to_value bit other value f hl hm =
    let b = position-Positioned bit in
    let o = position-Positioned other in
    let low =
      get-put_mask value (position bit % 8) (position other % 8) f.lsb (omega arith) (omega arith)
        hl in
    let high =
      get-put_mask value (position bit % 8) (position other % 8) f.msb (omega arith) (omega arith)
        hm in
    rw (b.0, b.1, o.0, o.1) (ground (arith, low, high, b.2, o.2))
