-- ===== src/App/ClassField.antt =====
-- opendnp3/app/ClassField.h and ClassField.cpp, and the event types and classes of opendnp3/app/EventType.h.
use dnp.Prelude.{ℕ, Bool, if◌then◌else◌, ◌-◌, ◌==◌, ◌!=◌, ltb, bit_and, bit_or}

pub data EventType : Type 0 where
  binary analog counter frozen_counter double_bit_binary binary_output_status analog_output_status :
      EventType
  security_stat : EventType

pub data EventClass : Type 0 where
  ec1 ec2 ec3 : EventClass

-- The values of the enumeration.
abbrev pub type_code : EventType → ℕ
type_code binary = 0
type_code analog = 1
type_code counter = 2
type_code frozen_counter = 3
type_code double_bit_binary = 4
type_code binary_output_status = 5
type_code analog_output_status = 6
type_code security_stat = 7

abbrev pub class_code : EventClass → ℕ
class_code ec1 = 0
class_code ec2 = 1
class_code ec3 = 2

pub record ClassField : Type 0 where
  pub bitfield : ℕ

abbrev pub class_0 : ℕ
class_0 = 1

abbrev pub class_1 : ℕ
class_1 = 2

abbrev pub class_2 : ℕ
class_2 = 4

abbrev pub class_3 : ℕ
class_3 = 8

abbrev pub event_classes : ℕ
event_classes = 14

abbrev pub all_classes : ℕ
all_classes = 15

-- The constructor from a mask.
unfoldable pub of_mask : ℕ → ClassField
of_mask mask = record { bitfield = bit_and mask all_classes }

-- The constructor from a point class.
unfoldable pub of_point_class : ℕ → ClassField
of_point_class pc = record { bitfield = pc }

-- The constructor from four flags.
unfoldable pub of_flags : Bool → Bool → Bool → Bool → ClassField
of_flags c0 c1 c2 c3 =
    let f0 = if c0 then class_0 else 0 in
    let f1 = bit_or f0 (if c1 then class_1 else 0) in
    let f2 = bit_or f1 (if c2 then class_2 else 0) in
    record { bitfield = bit_or f2 (if c3 then class_3 else 0) }

unfoldable pub is_empty : ClassField → Bool
is_empty f = f.bitfield == 0

unfoldable pub intersects : ClassField → ClassField → Bool
intersects f g = ltb 0 (bit_and f.bitfield g.bitfield)

unfoldable pub only_event_classes : ClassField → ClassField
only_event_classes f = of_mask (bit_and f.bitfield event_classes)

unfoldable pub set : ClassField → ClassField → ClassField
set f g = record { bitfield = bit_or f.bitfield g.bitfield }

-- `bitfield &= ~(field.bitfield)` on bytes.
unfoldable pub clear : ClassField → ClassField → ClassField
clear f g = record { bitfield = bit_and f.bitfield (255 - g.bitfield) }

unfoldable pub has_class0 : ClassField → Bool
has_class0 f = bit_and f.bitfield class_0 != 0

unfoldable pub has_class1 : ClassField → Bool
has_class1 f = bit_and f.bitfield class_1 != 0

unfoldable pub has_class2 : ClassField → Bool
has_class2 f = bit_and f.bitfield class_2 != 0

unfoldable pub has_class3 : ClassField → Bool
has_class3 f = bit_and f.bitfield class_3 != 0

unfoldable pub has_event_type : ClassField → EventClass → Bool
has_event_type f ec1 = has_class1 f
has_event_type f ec2 = has_class2 f
has_event_type f ec3 = has_class3 f

unfoldable pub has_event_class : ClassField → Bool
has_event_class f = bit_and f.bitfield event_classes != 0

unfoldable pub has_any_class : ClassField → Bool
has_any_class f = f.bitfield != 0
