-- ===== src/App/Examples.antt =====
-- A small message, on which the theorems of the parser are applied.
use dnp.Prelude.{drop, ltb, ◌≤◌, ℕ, Bool, true, false, some, List, [], ◌∷◌, ◌≡◌, refl}
use dnp.App.Range.{count, is_valid, intersection, contains, contains-intersection}
use dnp.App.Objects.{
  QualifierCode, octets, get_enumeration, group_variation_from_type, find_entry, member,
  qualifier_code_from_type,
}
use dnp.App.Parser.{
  invalid_object, not_enough_data_for_objects, if_ok, single_pass, after_header, parse_header,
  fail_if, is_allowed, parse_qualifier, add_headers, parse_range_header, parse_range, process,
  read_num, num_bytes_in_bits, ParseResult, ok, Header, HeaderRecord, on_all_objects, on_range,
  good, parse, parse_objects, required_size,
}
use dnp.App.Parser.TwoPass.{Reads, delivered, parse_lem}
use dnp.App.Parser.Contents.{is_sizeless, read_end, parse_objects-read_end}

abbrev no_free_format : ℕ → List ℕ → Bool
no_free_format enumeration bytes = false

abbrev all_allowed : ℕ → ℕ → QualifierCode → Bool
all_allowed index enumeration qualifier = true

-- All events of class 1, and the binary inputs 3 to 5 as bits.
abbrev message : List ℕ
message = 60 ∷ 2 ∷ 6 ∷ 1 ∷ 1 ∷ 0 ∷ 3 ∷ 5 ∷ 7 ∷ []

abbrev class_1_events : HeaderRecord
class_1_events = record {
  enumeration = 15362;
  group = 60;
  variation = 2;
  qualifier = 6;
  header_index = 0;
}

abbrev inputs : HeaderRecord
inputs = record { enumeration = 257; group = 1; variation = 1; qualifier = 0; header_index = 1 }

message_is_parsed :
    parse no_free_format true all_allowed message
    ≡ some (
      ok,
      on_all_objects class_1_events
          ∷ on_range inputs (record { start = 3; stop = 5 }) (7 ∷ [])
          ∷ [],
    )
unfolding parse if_ok single_pass after_header parse_header fail_if is_allowed parse_qualifier
    add_headers parse_range_header parse_range parse_objects process read_num required_size
    num_bytes_in_bits get_enumeration group_variation_from_type find_entry member
    qualifier_code_from_type count is_valid
message_is_parsed = refl

-- Without the byte of the bits the handler receives nothing.
short_message_is_refused :
    parse no_free_format true all_allowed (60 ∷ 2 ∷ 6 ∷ 1 ∷ 1 ∷ 0 ∷ 3 ∷ 5 ∷ [])
    ≡ some (ParseResult.not_enough_data_for_objects, [])
unfolding parse if_ok single_pass after_header parse_header fail_if is_allowed parse_qualifier
    add_headers parse_range_header parse_range parse_objects process read_num required_size
    num_bytes_in_bits get_enumeration group_variation_from_type find_entry member
    qualifier_code_from_type count is_valid
short_message_is_refused = refl

parse_lem_example :
    (result : ParseResult) × (headers : List Header) × Reads no_free_format true all_allowed 0
      message result headers
    × (parse no_free_format true all_allowed message ≡ some (result, delivered result headers))
parse_lem_example = parse_lem no_free_format true all_allowed message

abbrev strings : HeaderRecord
strings = record {
  enumeration = 28160;
  group = 110;
  variation = 2;
  qualifier = 0;
  header_index = 0;
}

strings_are_parsed :
    parse_objects
      (some octets)
      0
      2
      strings
      true
      (on_range strings (record { start = 3; stop = 4 }))
      (10 ∷ 20 ∷ 30 ∷ 40 ∷ 50 ∷ [])
    ≡ good
        (on_range strings (record { start = 3; stop = 4 }) (10 ∷ 20 ∷ 30 ∷ 40 ∷ 50 ∷ []) ∷ [])
        (50 ∷ [])
unfolding parse_objects process fail_if required_size
strings_are_parsed = refl

parse_objects-read_end_example :
    (parse_objects
        (some octets)
        0
        2
        strings
        true
        (on_range strings (record { start = 3; stop = 4 }))
        (10 ∷ 20 ∷ 30 ∷ 40 ∷ 50 ∷ [])
      ≡ fail_if (is_sizeless octets 2) invalid_object (
          fail_if (ltb 5 (read_end octets 0 2 1)) not_enough_data_for_objects (
            good
              (on_range strings (record { start = 3; stop = 4 }) (10 ∷ 20 ∷ 30 ∷ 40 ∷ 50 ∷ []) ∷ [])
              (drop (read_end octets 0 2 1) (10 ∷ 20 ∷ 30 ∷ 40 ∷ 50 ∷ [])))))
    × ((position : ℕ) → position ≤ 1 → read_end octets 0 2 position ≤ read_end octets 0 2 1)
parse_objects-read_end_example =
    parse_objects-read_end octets 0 1 strings (on_range strings (record { start = 3; stop = 4 }))
      (10 ∷ 20 ∷ 30 ∷ 40 ∷ 50 ∷ [])

contains-intersection_example :
    contains (intersection (record { start = 2; stop = 6 }) (record { start = 5; stop = 9 })) 5
    ≡ true
contains-intersection_example =
    contains-intersection (record { start = 2; stop = 6 }) (record { start = 5; stop = 9 }) 5
