-- ===== src/App/Objects.antt =====
-- The objects that the parsers know: opendnp3/gen/GroupVariation.cpp, GroupVariationRecord.cpp, the tables
-- of RangeParser.cpp, CountParser.cpp, CountIndexParser.cpp and FreeFormatParser.cpp with the sizes of the
-- object types (`Size` in opendnp3/objects), and opendnp3/gen/QualifierCode.cpp.
use dnp.Prelude.{
  ℕ, ◌+◌, ◌*◌, ◌==◌, ◌||◌, Bool, false, Option, none, some, List, [], ◌∷◌, if◌then◌else◌,
}

-- A group and a variation as one 16-bit number.
abbrev pub gv : ℕ → ℕ → ℕ
gv group variation = group * 256 + variation

abbrev pub unknown : ℕ
unknown = 65535

unfoldable pub member : ℕ → List ℕ → Bool
member x [] = false
member x (y ∷ ys) = x == y || member x ys

unfoldable pub find_entry {ℓ} : {A : Type ℓ} → ℕ → List (ℕ × A) → Option A
find_entry x [] = none
find_entry x ((y, a) ∷ rest) = let others = find_entry x rest in if x == y then some a else others

-- The variations of each group.
abbrev pub known_variations : List (ℕ × List ℕ)
known_variations =
    (1, 0 ∷ 1 ∷ 2 ∷ [])
    ∷ (2, 0 ∷ 1 ∷ 2 ∷ 3 ∷ [])
    ∷ (3, 0 ∷ 1 ∷ 2 ∷ [])
    ∷ (4, 0 ∷ 1 ∷ 2 ∷ 3 ∷ [])
    ∷ (10, 0 ∷ 1 ∷ 2 ∷ [])
    ∷ (11, 0 ∷ 1 ∷ 2 ∷ [])
    ∷ (12, 0 ∷ 1 ∷ [])
    ∷ (13, 1 ∷ 2 ∷ [])
    ∷ (20, 0 ∷ 1 ∷ 2 ∷ 5 ∷ 6 ∷ [])
    ∷ (21, 0 ∷ 1 ∷ 2 ∷ 5 ∷ 6 ∷ 9 ∷ 10 ∷ [])
    ∷ (22, 0 ∷ 1 ∷ 2 ∷ 5 ∷ 6 ∷ [])
    ∷ (23, 0 ∷ 1 ∷ 2 ∷ 5 ∷ 6 ∷ [])
    ∷ (30, 0 ∷ 1 ∷ 2 ∷ 3 ∷ 4 ∷ 5 ∷ 6 ∷ [])
    ∷ (32, 0 ∷ 1 ∷ 2 ∷ 3 ∷ 4 ∷ 5 ∷ 6 ∷ 7 ∷ 8 ∷ [])
    ∷ (40, 0 ∷ 1 ∷ 2 ∷ 3 ∷ 4 ∷ [])
    ∷ (41, 0 ∷ 1 ∷ 2 ∷ 3 ∷ 4 ∷ [])
    ∷ (42, 0 ∷ 1 ∷ 2 ∷ 3 ∷ 4 ∷ 5 ∷ 6 ∷ 7 ∷ 8 ∷ [])
    ∷ (43, 1 ∷ 2 ∷ 3 ∷ 4 ∷ 5 ∷ 6 ∷ 7 ∷ 8 ∷ [])
    ∷ (50, 1 ∷ 4 ∷ [])
    ∷ (51, 1 ∷ 2 ∷ [])
    ∷ (52, 1 ∷ 2 ∷ [])
    ∷ (60, 1 ∷ 2 ∷ 3 ∷ 4 ∷ [])
    ∷ (70, 1 ∷ 2 ∷ 3 ∷ 4 ∷ 5 ∷ 6 ∷ 7 ∷ 8 ∷ [])
    ∷ (80, 1 ∷ [])
    ∷ (110, 0 ∷ [])
    ∷ (111, 0 ∷ [])
    ∷ (112, 0 ∷ [])
    ∷ (113, 0 ∷ [])
    ∷ (120, 1 ∷ 2 ∷ 3 ∷ 4 ∷ 5 ∷ 6 ∷ 7 ∷ 8 ∷ 9 ∷ 10 ∷ 11 ∷ 12 ∷ 13 ∷ 14 ∷ 15 ∷ [])
    ∷ (121, 0 ∷ 1 ∷ [])
    ∷ (122, 0 ∷ 1 ∷ 2 ∷ [])
    ∷ []

unfoldable pub group_variation_from_type : ℕ → ℕ → ℕ
group_variation_from_type group variation = elim (find_entry group known_variations) [
  | none ↦ unknown
  | some variations ↦ if member variation variations then gv group variation else unknown
]

-- `GetEnumAndType`: an unknown variation of a group of octet strings is the size of the string.
unfoldable pub get_enumeration : ℕ → ℕ → ℕ
get_enumeration group variation =
    let enumeration = group_variation_from_type group variation in
    if enumeration == unknown
    then (if member group (110 ∷ 111 ∷ 112 ∷ 113 ∷ []) then gv group 0 else unknown)
    else enumeration

-- How the objects of a header lie in the buffer.
pub data Shape : Type 0 where
  fixed : ℕ → Shape
  bits double_bits octets : Shape

-- `RangeParser::ParseRangeOfObjects`.
abbrev pub range_shapes : List (ℕ × Shape)
range_shapes =
    (gv 1 1, bits)
    ∷ (gv 1 2, fixed 1)
    ∷ (gv 3 1, double_bits)
    ∷ (gv 10 1, bits)
    ∷ (gv 3 2, fixed 1)
    ∷ (gv 10 2, fixed 1)
    ∷ (gv 20 1, fixed 5)
    ∷ (gv 20 2, fixed 3)
    ∷ (gv 20 5, fixed 4)
    ∷ (gv 20 6, fixed 2)
    ∷ (gv 21 1, fixed 5)
    ∷ (gv 21 2, fixed 3)
    ∷ (gv 21 5, fixed 11)
    ∷ (gv 21 6, fixed 9)
    ∷ (gv 21 9, fixed 4)
    ∷ (gv 21 10, fixed 2)
    ∷ (gv 30 1, fixed 5)
    ∷ (gv 30 2, fixed 3)
    ∷ (gv 30 3, fixed 4)
    ∷ (gv 30 4, fixed 2)
    ∷ (gv 30 5, fixed 5)
    ∷ (gv 30 6, fixed 9)
    ∷ (gv 40 1, fixed 5)
    ∷ (gv 40 2, fixed 3)
    ∷ (gv 40 3, fixed 5)
    ∷ (gv 40 4, fixed 9)
    ∷ (gv 50 4, fixed 11)
    ∷ (gv 80 1, bits)
    ∷ (gv 110 0, octets)
    ∷ (gv 121 1, fixed 7)
    ∷ []

-- `CountParser::ParseCountOfObjects`.
abbrev pub count_shapes : List (ℕ × Shape)
count_shapes =
    (gv 50 1, fixed 6)
    ∷ (gv 51 1, fixed 6)
    ∷ (gv 51 2, fixed 6)
    ∷ (gv 52 1, fixed 2)
    ∷ (gv 52 2, fixed 2)
    ∷ (gv 120 4, fixed 2)
    ∷ []

-- `CountIndexParser::ParseCountOfObjects`.
abbrev pub prefix_shapes : List (ℕ × Shape)
prefix_shapes =
    (gv 2 1, fixed 1)
    ∷ (gv 2 2, fixed 7)
    ∷ (gv 2 3, fixed 3)
    ∷ (gv 4 1, fixed 1)
    ∷ (gv 4 2, fixed 7)
    ∷ (gv 4 3, fixed 3)
    ∷ (gv 11 1, fixed 1)
    ∷ (gv 11 2, fixed 7)
    ∷ (gv 12 1, fixed 11)
    ∷ (gv 13 1, fixed 1)
    ∷ (gv 13 2, fixed 7)
    ∷ (gv 22 1, fixed 5)
    ∷ (gv 22 2, fixed 3)
    ∷ (gv 22 5, fixed 11)
    ∷ (gv 22 6, fixed 9)
    ∷ (gv 23 1, fixed 5)
    ∷ (gv 23 2, fixed 3)
    ∷ (gv 23 5, fixed 11)
    ∷ (gv 23 6, fixed 9)
    ∷ (gv 32 1, fixed 5)
    ∷ (gv 32 2, fixed 3)
    ∷ (gv 32 3, fixed 11)
    ∷ (gv 32 4, fixed 9)
    ∷ (gv 32 5, fixed 5)
    ∷ (gv 32 6, fixed 9)
    ∷ (gv 32 7, fixed 11)
    ∷ (gv 32 8, fixed 15)
    ∷ (gv 41 1, fixed 5)
    ∷ (gv 41 2, fixed 3)
    ∷ (gv 41 3, fixed 5)
    ∷ (gv 41 4, fixed 9)
    ∷ (gv 42 1, fixed 5)
    ∷ (gv 42 2, fixed 3)
    ∷ (gv 42 3, fixed 11)
    ∷ (gv 42 4, fixed 9)
    ∷ (gv 42 5, fixed 5)
    ∷ (gv 42 6, fixed 9)
    ∷ (gv 42 7, fixed 11)
    ∷ (gv 42 8, fixed 15)
    ∷ (gv 43 1, fixed 5)
    ∷ (gv 43 2, fixed 3)
    ∷ (gv 43 3, fixed 11)
    ∷ (gv 43 4, fixed 9)
    ∷ (gv 43 5, fixed 5)
    ∷ (gv 43 6, fixed 9)
    ∷ (gv 43 7, fixed 11)
    ∷ (gv 43 8, fixed 15)
    ∷ (gv 50 4, fixed 11)
    ∷ (gv 111 0, octets)
    ∷ (gv 122 1, fixed 7)
    ∷ (gv 122 2, fixed 13)
    ∷ []

-- The objects of the free format.
abbrev pub free_format_objects : List ℕ
free_format_objects =
    gv 120 1
    ∷ gv 120 2
    ∷ gv 120 5
    ∷ gv 120 6
    ∷ gv 120 7
    ∷ gv 120 10
    ∷ gv 120 11
    ∷ gv 120 12
    ∷ gv 120 13
    ∷ gv 120 14
    ∷ gv 120 15
    ∷ []

pub data QualifierCode : Type 0 where
  uint8_start_stop uint16_start_stop all_objects uint8_cnt uint16_cnt uint8_cnt_uint8_index :
      QualifierCode
  uint16_cnt_uint16_index uint16_free_format undefined : QualifierCode

unfoldable pub qualifier_code_from_type : ℕ → QualifierCode
qualifier_code_from_type arg =
    if arg == 0
    then uint8_start_stop
    else if arg == 1
    then uint16_start_stop
    else if arg == 6
    then all_objects
    else if arg == 7
    then uint8_cnt
    else if arg == 8
    then uint16_cnt
    else if arg == 23
    then uint8_cnt_uint8_index
    else if arg == 40
    then uint16_cnt_uint16_index
    else if arg == 91
    then uint16_free_format
    else undefined
