-- ===== src/App/Parser.antt =====
-- opendnp3/app/parsing: the parser of the objects of a message (APDUParser, ObjectHeaderParser, NumParser, CountParser,
-- RangeParser, CountIndexParser, FreeFormatParser and BitReader). What the handler receives is a list of headers,
-- each with the buffer from which its objects are read. The reading of one object of the free format is a parameter, and so is the white
-- list of a handler. A header that fails gives nothing to the handler, so its result keeps only the error.
use dnp.Prelude.{
  ℕ, zero, suc, ◌+◌, ◌-◌, ◌*◌, ◌/◌, ◌%◌, Bool, true, false, not, ◌&&◌, if◌then◌else◌, ◌==◌, ltb,
  Option, none, some, List, [], ◌∷◌, ◌++◌, length, take, drop, get_or,
}
use dnp.App.Range
use dnp.App.Range.{Range}
use dnp.App.Objects.{
  QualifierCode, qualifier_code_from_type, get_enumeration, unknown, find_entry, member, Shape,
  fixed, bits, double_bits, octets, range_shapes, count_shapes, prefix_shapes, free_format_objects,
  uint8_start_stop, uint16_start_stop, all_objects, uint8_cnt, uint16_cnt, uint8_cnt_uint8_index,
  uint16_cnt_uint16_index, uint16_free_format, undefined,
}
use dnp.Openpal.Serialization.{read_u16}
pub mod Twin
pub mod TwoPass
pub mod Contents

pub data ParseResult : Type 0 where
  ok not_on_whitelist not_enough_data_for_header not_enough_data_for_range : ParseResult
  not_enough_data_for_objects unreasonable_object_count unknown_object unknown_qualifier :
      ParseResult
  invalid_object_qualifier invalid_object bad_start_stop count_of_zero : ParseResult

-- A result with what was parsed and the bytes behind it, or an error.
pub data Parsed {ℓ} (A : Type ℓ) : Type ℓ where
  good : A → List ℕ → Parsed A
  bad : ParseResult → Parsed A

infixl 5 ◌>>=◌
abbrev pub ◌>>=◌ {ℓ} : {A B : Type ℓ} → Parsed A → (A → List ℕ → Parsed B) → Parsed B
good a rest >>= f = f a rest
bad e >>= f = bad e

-- A test that ends the parser with an error.
unfoldable pub fail_if {ℓ} : {A : Type ℓ} → Bool → ParseResult → Parsed A → Parsed A
fail_if true e next = bad e
fail_if false e next = next

pub record HeaderRecord : Type 0 where
  pub enumeration : ℕ
  pub group : ℕ
  pub variation : ℕ
  pub qualifier : ℕ
  pub header_index : ℕ

pub data Header : Type 0 where
  on_all_objects : HeaderRecord → Header
  on_count on_prefix : HeaderRecord → ℕ → List ℕ → Header
  on_range : HeaderRecord → Range → List ℕ → Header
  on_free_format : HeaderRecord → List ℕ → Header

-- The calls of a handler, where there is one.
abbrev pub handled : Bool → Header → List Header
handled handles h = if handles then h ∷ [] else []

unfoldable pub num_bytes_in_bits : ℕ → ℕ
num_bytes_in_bits n = if n % 8 == 0 then n / 8 else n / 8 + 1

unfoldable pub num_bytes_in_double_bits : ℕ → ℕ
num_bytes_in_double_bits n = if n % 4 == 0 then n / 4 else n / 4 + 1

-- `NumParser::OneByte` and `TwoByte`: the number of bytes of a number, and its value.
unfoldable pub read_num : (bytes : ℕ) → List ℕ → ℕ
read_num bytes buffer = if bytes == 1 then get_or buffer 0 0 else read_u16 buffer 0

unfoldable pub parse_count : (bytes : ℕ) → List ℕ → Parsed ℕ
parse_count bytes buffer = fail_if (ltb (length buffer) bytes) not_enough_data_for_range (
    fail_if (read_num bytes buffer == 0) count_of_zero
      (good (read_num bytes buffer) (drop bytes buffer)))

unfoldable pub parse_range : (bytes : ℕ) → List ℕ → Parsed Range
parse_range bytes buffer =
    let range : Range = record {
      start = read_num bytes buffer;
      stop = read_num bytes (drop bytes buffer);
    } in
    fail_if (ltb (length buffer) (2 * bytes)) not_enough_data_for_range
      (fail_if (not (Range.is_valid range)) bad_start_stop (good range (drop (2 * bytes) buffer)))

-- `Process` of the parsers: the handler has the whole buffer, from which it reads its objects.
unfoldable pub process :
    (required : ℕ) → (handles : Bool) → (List ℕ → Header) → List ℕ → Parsed (List Header)
process required handles header buffer =
    fail_if (ltb (length buffer) required) not_enough_data_for_objects
      (good (handled handles (header buffer)) (drop required buffer))

-- The bytes of `count` objects with an index of `bytes` bytes each.
unfoldable pub required_size : Shape → (bytes count variation : ℕ) → ℕ
required_size (fixed size) bytes count variation = count * (size + bytes)
required_size bits bytes count variation = num_bytes_in_bits count
required_size double_bits bytes count variation = num_bytes_in_double_bits count
required_size octets bytes count variation = count * (bytes + variation)

-- The objects behind a count or a range, by the table of their parser.
unfoldable pub parse_objects :
    Option Shape
    → (bytes count : ℕ) → HeaderRecord
    → (handles : Bool) → (List ℕ → Header)
    → List ℕ
    → Parsed (List Header)
parse_objects none bytes count r handles header buffer = bad invalid_object_qualifier
parse_objects (some octets) bytes count r handles header buffer =
    fail_if (r.variation == 0) invalid_object
      (process (required_size octets bytes count r.variation) handles header buffer)
parse_objects (some shape) bytes count r handles header buffer =
    process (required_size shape bytes count r.variation) handles header buffer

unfoldable pub parse_count_header :
    (bytes : ℕ) → (expects handles : Bool) → HeaderRecord → List ℕ → Parsed (List Header)
parse_count_header bytes expects handles r buffer = parse_count bytes buffer >>= λ count rest.
    if expects
    then parse_objects (find_entry r.enumeration count_shapes) 0 count r handles (on_count r count)
        rest
    else good (handled handles (on_count r count [])) rest

unfoldable pub parse_range_header :
    (bytes : ℕ) → (expects handles : Bool) → HeaderRecord → List ℕ → Parsed (List Header)
parse_range_header bytes expects handles r buffer = parse_range bytes buffer >>= λ range rest.
    if expects
    then parse_objects (find_entry r.enumeration range_shapes) 0 (Range.count range) r handles
        (on_range r range) rest
    else good (handled handles (on_range r range [])) rest

unfoldable pub parse_prefix_header :
    (bytes : ℕ) → (handles : Bool) → HeaderRecord → List ℕ → Parsed (List Header)
parse_prefix_header bytes handles r buffer = parse_count bytes buffer >>= λ count rest.
    parse_objects (find_entry r.enumeration prefix_shapes) bytes count r handles (on_prefix r count)
      rest

-- A result behind the headers before it.
unfoldable pub add_headers :
    List Header → Option (ParseResult × List Header) → Option (ParseResult × List Header)
add_headers headers none = none
add_headers headers (some (result, later)) = some (result, headers ++ later)

-- The rest of the loop after a header.
unfoldable pub after_header :
    Parsed (List Header)
    → (List ℕ → Option (ParseResult × List Header))
    → Option (ParseResult × List Header)
after_header (bad e) next = some (e, [])
after_header (good headers rest) next = add_headers headers (next rest)

-- The second pass, where the first succeeds.
unfoldable pub if_ok :
    Option (ParseResult × List Header)
    → Option (ParseResult × List Header)
    → Option (ParseResult × List Header)
if_ok (some (ok, headers)) second = second
if_ok first second = first

-- The reading of an object of the free format, by its enumeration.
module _ (read_object : ℕ → List ℕ → Bool) where
  unfoldable pub parse_free_format : (handles : Bool) → HeaderRecord → List ℕ → Parsed (List Header)
  parse_free_format handles r buffer =
      let size = read_u16 buffer 1 in
      let behind = drop 3 buffer in
      fail_if (ltb (length buffer) 3) not_enough_data_for_header (
        fail_if (not (get_or buffer 0 0 == 1)) unreasonable_object_count (
          fail_if (ltb (length behind) size) not_enough_data_for_objects (
            fail_if (not (member r.enumeration free_format_objects)) invalid_object_qualifier (
              fail_if (not (read_object r.enumeration (take size behind)))
                not_enough_data_for_objects
                (good (handled handles (on_free_format r (take size behind)))
                  (drop size behind))))))

  unfoldable pub parse_qualifier :
      QualifierCode → (expects handles : Bool) → HeaderRecord → List ℕ → Parsed (List Header)
  parse_qualifier all_objects expects handles r buffer =
      good (handled handles (on_all_objects r)) buffer
  parse_qualifier uint8_cnt expects handles r buffer = parse_count_header 1 expects handles r buffer
  parse_qualifier uint16_cnt expects handles r buffer =
      parse_count_header 2 expects handles r buffer
  parse_qualifier uint8_start_stop expects handles r buffer =
      parse_range_header 1 expects handles r buffer
  parse_qualifier uint16_start_stop expects handles r buffer =
      parse_range_header 2 expects handles r buffer
  parse_qualifier uint8_cnt_uint8_index expects handles r buffer =
      parse_prefix_header 1 handles r buffer
  parse_qualifier uint16_cnt_uint16_index expects handles r buffer =
      parse_prefix_header 2 handles r buffer
  parse_qualifier uint16_free_format expects handles r buffer = parse_free_format handles r buffer
  parse_qualifier undefined expects handles r buffer = bad unknown_qualifier

  -- A white list answers by the index of the header, its object and its qualifier.
  unfoldable pub is_allowed : Option (ℕ → ℕ → QualifierCode → Bool) → ℕ → ℕ → QualifierCode → Bool
  is_allowed none index enumeration qualifier = true
  is_allowed (some allowed) index enumeration qualifier = allowed index enumeration qualifier

  unfoldable pub parse_header :
      (expects handles : Bool)
      → Option (ℕ → ℕ → QualifierCode → Bool)
      → (index : ℕ) → List ℕ
      → Parsed (List Header)
  parse_header expects handles whitelist index buffer =
      let group = get_or buffer 0 0 in
      let variation = get_or buffer 1 0 in
      let qualifier = get_or buffer 2 0 in
      let enumeration = get_enumeration group variation in
      let r : HeaderRecord = record {
        enumeration = enumeration;
        group = group;
        variation = variation;
        qualifier = qualifier;
        header_index = index;
      } in
      fail_if (ltb (length buffer) 3) not_enough_data_for_header (
        fail_if (enumeration == unknown) unknown_object (
          fail_if
            (not (is_allowed whitelist index enumeration (qualifier_code_from_type qualifier)))
            not_on_whitelist
            (parse_qualifier (qualifier_code_from_type qualifier) expects handles r
              (drop 3 buffer))))

  -- The loop of `ParseSinglePass` on fuel.
  unfoldable pub single_pass :
      (fuel : ℕ)
      → (expects handles : Bool) → Option (ℕ → ℕ → QualifierCode → Bool)
      → (index : ℕ) → List ℕ
      → Option (ParseResult × List Header)
  single_pass fuel expects handles whitelist index [] = some (ok, [])
  single_pass zero expects handles whitelist index (b ∷ bs) = none
  single_pass (suc fuel) expects handles whitelist index (b ∷ bs) =
      after_header (parse_header expects handles whitelist index (b ∷ bs))
        (λ rest. single_pass fuel expects handles whitelist (suc index) rest)

  -- `Parse`: a pass with the white list, and, where it succeeds, one with the handler.
  unfoldable pub parse :
      (expects : Bool)
      → (ℕ → ℕ → QualifierCode → Bool)
      → List ℕ
      → Option (ParseResult × List Header)
  parse expects whitelist buffer =
      if_ok (single_pass (length buffer) expects false (some whitelist) 0 buffer)
        (single_pass (length buffer) expects true none 0 buffer)
