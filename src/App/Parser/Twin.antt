-- ===== src/App/Parser/Twin.antt =====
-- A pass over one header without a handler against one with it.
use dnp.Prelude.{
  ℕ, ◌*◌, ◌≤◌, Bool, true, false, if◌then◌else◌, ◌==◌, ltb, Option, none, some, List, [], ◌∷◌,
  length, drop, ◌≡◌, refl, arith, length-drop,
}
use dnp.Openpal.Serialization.{read_u16}
use dnp.App.Objects.{
  QualifierCode, Shape, fixed, bits, double_bits, octets, uint8_start_stop, uint16_start_stop,
  all_objects, uint8_cnt, uint16_cnt, uint8_cnt_uint8_index, uint16_cnt_uint16_index,
  uint16_free_format, undefined,
}
use dnp.App.Parser.{
  fail_if, ParseResult, ok, unknown_qualifier, Parsed, good, bad, ◌>>=◌, Header, on_all_objects,
  on_count, on_prefix, on_range, on_free_format, HeaderRecord, process, parse_objects, parse_count,
  parse_range, parse_count_header, parse_range_header, parse_prefix_header, parse_free_format,
  parse_qualifier,
}

abbrev pub is_failure : ParseResult → Bool
is_failure ok = false
is_failure _ = true

-- The record of a header.
unfoldable pub record_of : Header → HeaderRecord
record_of (on_all_objects r) = r
record_of (on_count r n contents) = r
record_of (on_prefix r n contents) = r
record_of (on_range r range contents) = r
record_of (on_free_format r contents) = r

-- A pass without a handler and one with it: the same error, or the same rest, of at most `n` bytes, and one header
-- with the record.
pub data Twin (n : ℕ) (r : HeaderRecord)
    : Parsed (List Header) → Parsed (List Header) → Type 0 where
  both_bad : (e : ParseResult) → is_failure e ≡ true → Twin n r (bad e) (bad e)
  both_good :
      (h : Header) (rest : List ℕ)
      → length rest ≤ n
      → record_of h ≡ r
      → Twin n r (good [] rest) (good (h ∷ []) rest)

Twin-fail_if :
    {n : ℕ} {r : HeaderRecord} {p q : Parsed (List Header)} (b : Bool) (e : ParseResult)
    → is_failure e ≡ true
    → (b ≡ false → Twin n r p q)
    → Twin n r (fail_if b e p) (fail_if b e q)
unfolding fail_if
Twin-fail_if true e w f = both_bad e w
Twin-fail_if false e w f = f refl

process-Twin :
    (n required : ℕ) (r : HeaderRecord) (header : List ℕ → Header) (buffer : List ℕ)
    → ((contents : List ℕ) → record_of (header contents) ≡ r)
    → length buffer ≤ n
    → Twin n r (process required false header buffer) (process required true header buffer)
unfolding process
process-Twin n required r header buffer h short =
    Twin-fail_if (ltb (length buffer) required) _ refl (λ e.
      both_good (header buffer) (drop required buffer)
        (omega (arith, length-drop required buffer, short)) (h buffer))

objects-Twin :
    (shape : Option Shape) (n bytes count : ℕ) (r : HeaderRecord) (header : List ℕ → Header)
    (buffer : List ℕ)
    → ((contents : List ℕ) → record_of (header contents) ≡ r)
    → length buffer ≤ n
    → Twin n r
        (parse_objects shape bytes count r false header buffer)
        (parse_objects shape bytes count r true header buffer)
unfolding parse_objects
objects-Twin none n bytes count r header buffer h short = both_bad _ refl
objects-Twin (some octets) n bytes count r header buffer h short =
    Twin-fail_if (r.variation == 0) _ refl (λ e. process-Twin n _ r header buffer h short)
objects-Twin (some (fixed size)) n bytes count r header buffer h short =
    process-Twin n _ r header buffer h short
objects-Twin (some bits) n bytes count r header buffer h short =
    process-Twin n _ r header buffer h short
objects-Twin (some double_bits) n bytes count r header buffer h short =
    process-Twin n _ r header buffer h short

-- What a parser of a number or a range leaves is no longer than its bytes.
data Shorter {A : Type 0} (n : ℕ) : Parsed A → Type 0 where
  failed : (e : ParseResult) → is_failure e ≡ true → Shorter n (bad e)
  shorter : (a : A) (rest : List ℕ) → length rest ≤ n → Shorter n (good a rest)

Shorter-fail_if :
    {A : Type 0} {n : ℕ} {p : Parsed A} (b : Bool) (e : ParseResult)
    → is_failure e ≡ true
    → Shorter n p
    → Shorter n (fail_if b e p)
unfolding fail_if
Shorter-fail_if true e w f = failed e w
Shorter-fail_if false e w f = f

parse_count-Shorter :
    (bytes : ℕ) (buffer : List ℕ) → Shorter (length buffer) (parse_count bytes buffer)
unfolding parse_count
parse_count-Shorter bytes buffer = Shorter-fail_if _ _ refl (
    Shorter-fail_if _ _ refl
      (shorter _ (drop bytes buffer) (omega (arith, length-drop bytes buffer))))

parse_range-Shorter :
    (bytes : ℕ) (buffer : List ℕ) → Shorter (length buffer) (parse_range bytes buffer)
unfolding parse_range
parse_range-Shorter bytes buffer = Shorter-fail_if _ _ refl (
    Shorter-fail_if _ _ refl
      (shorter _ (drop (2 * bytes) buffer) (omega (arith, length-drop (2 * bytes) buffer))))

bind-Twin :
    {A : Type 0} (n : ℕ) (r : HeaderRecord) (p : Parsed A) (f g : A → List ℕ → Parsed (List Header))
    → Shorter n p
    → ((a : A) (rest : List ℕ) → length rest ≤ n → Twin n r (f a rest) (g a rest))
    → Twin n r (p >>= f) (p >>= g)
bind-Twin n r _ f g (shorter a rest short) h = h a rest short
bind-Twin n r _ f g (failed e w) h = both_bad e w

choice-Twin :
    {n : ℕ} {r : HeaderRecord} (b : Bool) (p p' q q' : Parsed (List Header))
    → Twin n r p p'
    → Twin n r q q'
    → Twin n r (if b then p else q) (if b then p' else q')
choice-Twin true p p' q q' s t = s
choice-Twin false p p' q q' s t = t

count-Twin :
    (bytes : ℕ) (expects : Bool) (r : HeaderRecord) (buffer : List ℕ)
    → Twin
        (length buffer)
        r
        (parse_count_header bytes expects false r buffer)
        (parse_count_header bytes expects true r buffer)
unfolding parse_count_header record_of
count-Twin bytes expects r buffer =
    bind-Twin (length buffer) r (parse_count bytes buffer) _ _ (parse_count-Shorter bytes buffer)
      (λ count rest short.
        choice-Twin expects _ _ _ _
          (objects-Twin _ (length buffer) 0 count r (on_count r count) rest (λ c. refl) short)
          (both_good (on_count r count []) rest short refl))

range-Twin :
    (bytes : ℕ) (expects : Bool) (r : HeaderRecord) (buffer : List ℕ)
    → Twin
        (length buffer)
        r
        (parse_range_header bytes expects false r buffer)
        (parse_range_header bytes expects true r buffer)
unfolding parse_range_header record_of
range-Twin bytes expects r buffer =
    bind-Twin (length buffer) r (parse_range bytes buffer) _ _ (parse_range-Shorter bytes buffer)
      (λ range rest short.
        choice-Twin expects _ _ _ _
          (objects-Twin _ (length buffer) 0 _ r (on_range r range) rest (λ c. refl) short)
          (both_good (on_range r range []) rest short refl))

prefix-Twin :
    (bytes : ℕ) (r : HeaderRecord) (buffer : List ℕ)
    → Twin
        (length buffer)
        r
        (parse_prefix_header bytes false r buffer)
        (parse_prefix_header bytes true r buffer)
unfolding parse_prefix_header record_of
prefix-Twin bytes r buffer =
    bind-Twin (length buffer) r (parse_count bytes buffer) _ _ (parse_count-Shorter bytes buffer)
      (λ count rest short.
        objects-Twin _ (length buffer) bytes count r (on_prefix r count) rest (λ c. refl) short)

module _ (read_object : ℕ → List ℕ → Bool) where
  free_format-Twin :
      (r : HeaderRecord) (buffer : List ℕ)
      → Twin
          (length buffer)
          r
          (parse_free_format read_object false r buffer)
          (parse_free_format read_object true r buffer)
  unfolding parse_free_format record_of
  free_format-Twin r buffer = Twin-fail_if _ _ refl (λ e. Twin-fail_if _ _ refl (λ e.
      Twin-fail_if _ _ refl (λ e. Twin-fail_if _ _ refl (λ e. Twin-fail_if _ _ refl (λ e.
        both_good (on_free_format r _) _
          (omega (arith, length-drop (read_u16 buffer 1) (drop 3 buffer), length-drop 3 buffer))
          refl)))))

  pub qualifier-Twin :
      (q : QualifierCode) (expects : Bool) (r : HeaderRecord) (buffer : List ℕ)
      → Twin
          (length buffer)
          r
          (parse_qualifier read_object q expects false r buffer)
          (parse_qualifier read_object q expects true r buffer)
  unfolding parse_qualifier record_of
  qualifier-Twin all_objects expects r buffer =
      both_good (on_all_objects r) buffer (omega arith) refl
  qualifier-Twin undefined expects r buffer = both_bad unknown_qualifier refl
  qualifier-Twin uint16_free_format expects r buffer = free_format-Twin r buffer
  qualifier-Twin uint8_cnt expects r buffer = count-Twin 1 expects r buffer
  qualifier-Twin uint16_cnt expects r buffer = count-Twin 2 expects r buffer
  qualifier-Twin uint8_start_stop expects r buffer = range-Twin 1 expects r buffer
  qualifier-Twin uint16_start_stop expects r buffer = range-Twin 2 expects r buffer
  qualifier-Twin uint8_cnt_uint8_index expects r buffer = prefix-Twin 1 r buffer
  qualifier-Twin uint16_cnt_uint16_index expects r buffer = prefix-Twin 2 r buffer
