-- ===== src/App/Parser/TwoPass.antt =====
-- The two passes of the parser agree, and the loop over the headers ends.
use dnp.Prelude.{
  get_or, ◌==◌, ℕ, zero, suc, ◌≤◌, ◌<◌, Bool, true, false, not, ltb, Option, none, some, List, [],
  ◌∷◌, length, drop, ◌≡◌, refl, ap, ◌∙◌, arith, length-drop,
}
use dnp.App.Objects.{get_enumeration, unknown, QualifierCode, qualifier_code_from_type}
use dnp.App.Parser.Twin.{is_failure, record_of, Twin, both_bad, both_good, qualifier-Twin}
use dnp.App.Parser.{
  fail_if, not_enough_data_for_header, unknown_object, not_on_whitelist, parse_qualifier,
  ParseResult, ok, Parsed, good, bad, Header, HeaderRecord, is_allowed, add_headers, after_header,
  if_ok, parse_header, single_pass, parse,
}

-- The record of the header that begins a buffer.
unfoldable pub first_record : (index : ℕ) → List ℕ → HeaderRecord
first_record index buffer = record {
  enumeration = get_enumeration (get_or buffer 0 0) (get_or buffer 1 0);
  group = get_or buffer 0 0;
  variation = get_or buffer 1 0;
  qualifier = get_or buffer 2 0;
  header_index = index;
}

-- What a white list says of a header.
abbrev pub allows : (ℕ → ℕ → QualifierCode → Bool) → HeaderRecord → Bool
allows whitelist r = whitelist r.header_index r.enumeration (qualifier_code_from_type r.qualifier)

-- What the handler is given of the headers.
unfoldable pub delivered : ParseResult → List Header → List Header
delivered ok headers = headers
delivered _ headers = []

module _ (read_object : ℕ → List ℕ → Bool) where
  -- The headers of a message one behind the other, up to its end or to the first that is refused, with
  -- the result; each is numbered in its place, has the record that its first bytes give, and is one
  -- that the white list allows.
  pub data Reads (expects : Bool) (whitelist : ℕ → ℕ → QualifierCode → Bool)
      : ℕ → List ℕ → ParseResult → List Header → Type 0 where
    at_end : (index : ℕ) → Reads expects whitelist index [] ok []
    at_error :
        (index : ℕ) (b : ℕ) (bs : List ℕ) (e : ParseResult)
        → is_failure e ≡ true
        → parse_header read_object expects false (some whitelist) index (b ∷ bs) ≡ bad e
        → Reads expects whitelist index (b ∷ bs) e []
    at_header :
        (index : ℕ) (b : ℕ) (bs : List ℕ) (h : Header) (rest : List ℕ) (result : ParseResult)
        (headers : List Header)
        → record_of h ≡ first_record index (b ∷ bs)
        → allows whitelist (first_record index (b ∷ bs)) ≡ true
        → parse_header read_object expects true none index (b ∷ bs) ≡ good (h ∷ []) rest
        → Reads expects whitelist (suc index) rest result headers
        → Reads expects whitelist index (b ∷ bs) result (h ∷ headers)

  -- The pass with the white list fails, or both passes go on with the same rest, which is shorter, and the handler
  -- receives a header.
  data Passes (whitelist : ℕ → ℕ → QualifierCode → Bool) (r : HeaderRecord) (n : ℕ)
      : Parsed (List Header) → Parsed (List Header) → Type 0 where
    refused :
        (e : ParseResult) (q : Parsed (List Header))
        → is_failure e ≡ true
        → Passes whitelist r n (bad e) q
    accepted :
        (h : Header) (rest : List ℕ)
        → length rest < n
        → record_of h ≡ r
        → allows whitelist r ≡ true
        → Passes whitelist r n (good [] rest) (good (h ∷ []) rest)

  Passes-fail_if :
      {whitelist : ℕ → ℕ → QualifierCode → Bool} {r : HeaderRecord} {n : ℕ}
      {p q : Parsed (List Header)} (b : Bool) (e : ParseResult)
      → is_failure e ≡ true
      → (b ≡ false → Passes whitelist r n p q)
      → Passes whitelist r n (fail_if b e p) (fail_if b e q)
  unfolding fail_if
  Passes-fail_if true e w f = refused e _ w
  Passes-fail_if false e w f = f refl

  Passes-fail_left :
      {whitelist : ℕ → ℕ → QualifierCode → Bool} {r : HeaderRecord} {n : ℕ}
      {p q : Parsed (List Header)} (b : Bool) (e : ParseResult)
      → is_failure e ≡ true
      → (b ≡ true → Passes whitelist r n p q)
      → Passes whitelist r n (fail_if (not b) e p) (fail_if (not true) e q)
  unfolding fail_if
  Passes-fail_left true e w f = f refl
  Passes-fail_left false e w f = refused e _ w

  Passes-Twin :
      (whitelist : ℕ → ℕ → QualifierCode → Bool) (m n : ℕ) (r : HeaderRecord)
      (p q : Parsed (List Header))
      → Twin m r p q
      → m < n
      → allows whitelist r ≡ true
      → Passes whitelist r n p q
  Passes-Twin whitelist m n r _ _ (both_bad e w) less allowed = refused e (bad e) w
  Passes-Twin whitelist m n r _ _ (both_good h rest short same) less allowed =
      accepted h rest (omega (arith, short, less)) same allowed

  guards-Passes :
      (expects : Bool) (whitelist : ℕ → ℕ → QualifierCode → Bool) (is_short is_unknown : Bool)
      (r : HeaderRecord) (rest : List ℕ) (n : ℕ)
      → (is_short ≡ false → length rest < n)
      → let behind = λ (passed handles : Bool). fail_if is_short not_enough_data_for_header (
          fail_if is_unknown unknown_object (
            fail_if (not passed) not_on_whitelist (
              parse_qualifier read_object
                (qualifier_code_from_type r.qualifier)
                expects
                handles
                r
                rest))) in
        Passes whitelist r n (behind (allows whitelist r) false) (behind true true)
  guards-Passes expects whitelist is_short is_unknown r rest n less =
      Passes-fail_if is_short _ refl (λ enough. Passes-fail_if is_unknown _ refl (λ known.
        Passes-fail_left (allows whitelist r) _ refl (λ allowed.
          Passes-Twin whitelist (length rest) n r _ _
            (qualifier-Twin read_object (qualifier_code_from_type r.qualifier) expects r rest)
            (less enough) allowed)))

  parse_header-Passes :
      (expects : Bool) (whitelist : ℕ → ℕ → QualifierCode → Bool) (index : ℕ) (buffer : List ℕ)
      → Passes whitelist
          (first_record index buffer)
          (length buffer)
          (parse_header read_object expects false (some whitelist) index buffer)
          (parse_header read_object expects true none index buffer)
  unfolding parse_header is_allowed first_record
  parse_header-Passes expects whitelist index buffer =
      guards-Passes expects whitelist (ltb (length buffer) 3)
        ((first_record index buffer).enumeration == unknown) (first_record index buffer)
        (drop 3 buffer) (length buffer) (λ enough. ground (arith, enough, length-drop 3 buffer))

  -- What both passes give from here: the result of the headers, and, where it is OK, the headers.
  abbrev Agree :
      Bool
      → (ℕ → ℕ → QualifierCode → Bool)
      → ℕ
      → List ℕ
      → (first second : Option (ParseResult × List Header)) → Type 0
  Agree expects whitelist index buffer first second =
      (result : ParseResult) × (headers : List Header) × Reads expects whitelist index buffer result
        headers
      × (first ≡ some (result, []))
      × (result ≡ ok → second ≡ some (ok, headers))

  after_header-Agree :
      (expects : Bool) (whitelist : ℕ → ℕ → QualifierCode → Bool) (index b : ℕ) (bs : List ℕ)
      (p q : Parsed (List Header)) (f g : List ℕ → Option (ParseResult × List Header))
      → parse_header read_object expects false (some whitelist) index (b ∷ bs) ≡ p
      → parse_header read_object expects true none index (b ∷ bs) ≡ q
      → Passes whitelist (first_record index (b ∷ bs)) (length (b ∷ bs)) p q
      → ((rest : List ℕ)
          → length rest < length (b ∷ bs)
          → Agree expects whitelist (suc index) rest (f rest) (g rest))
      → Agree expects whitelist index (b ∷ bs) (after_header p f) (after_header q g)
  unfolding after_header add_headers
  after_header-Agree expects whitelist index b bs _ _ f g sp sq (refused e q w) ih =
      (e, [], at_error index b bs e w sp, refl, λ o. absurd (ground (arith, w, o)))
  after_header-Agree expects whitelist index b bs _ _ f g sp sq (accepted h rest less same allowed)
        ih =
      let later = ih rest less in
      (
        later.0,
        h ∷ later.1,
        at_header index b bs h rest later.0 later.1 same allowed sq later.2,
        ap (add_headers []) later.3,
        λ o. ap (add_headers (h ∷ [])) (later.4 o),
      )

  -- Both passes over the bytes, on enough fuel.
  single_pass-Agree :
      (fuel : ℕ) (expects : Bool) (whitelist : ℕ → ℕ → QualifierCode → Bool) (index : ℕ)
      (buffer : List ℕ)
      → length buffer ≤ fuel
      → Agree expects whitelist index buffer
          (single_pass read_object fuel expects false (some whitelist) index buffer)
          (single_pass read_object fuel expects true none index buffer)
  unfolding single_pass
  single_pass-Agree fuel expects whitelist index [] short = (ok, [], at_end index, refl, λ e. refl)
  single_pass-Agree zero expects whitelist index (b ∷ bs) short = absurd (omega arith)
  single_pass-Agree (suc fuel) expects whitelist index (b ∷ bs) short =
      after_header-Agree expects whitelist index b bs _ _ _ _ refl refl
        (parse_header-Passes expects whitelist index (b ∷ bs))
        (λ rest less.
          single_pass-Agree fuel expects whitelist (suc index) rest (omega (arith, short, less)))

  if_ok-delivered :
      (result : ParseResult) (headers : List Header) (second : Option (ParseResult × List Header))
      → (result ≡ ok → second ≡ some (ok, headers))
      → if_ok (some (result, [])) second ≡ some (result, delivered result headers)
  unfolding if_ok delivered
  if_ok-delivered ok headers second h = h refl
  if_ok-delivered e headers second h = refl

  -- Parse ends on all bytes, and its result is that of the headers that stand one behind the other:
  -- OK where each of them parses and is allowed by the white list up to the end of the bytes, and
  -- otherwise the error of the first that does not. Where the result is OK the handler receives
  -- exactly these headers, in their order, each with its place, its group, its variation and its
  -- qualifier; otherwise it receives nothing.
  pub parse_lem :
      (expects : Bool) (whitelist : ℕ → ℕ → QualifierCode → Bool) (buffer : List ℕ)
      → (result : ParseResult) × (headers : List Header) × Reads expects whitelist 0 buffer result
          headers
        × (parse read_object expects whitelist buffer ≡ some (result, delivered result headers))
  unfolding parse
  parse_lem expects whitelist buffer =
      let agree = single_pass-Agree (length buffer) expects whitelist 0 buffer (omega arith) in
      let second = single_pass read_object (length buffer) expects true none 0 buffer in
      (
        agree.0,
        agree.1,
        agree.2,
        ap (λ first. if_ok first second) agree.3 ∙ if_ok-delivered agree.0 agree.1 second agree.4,
      )
