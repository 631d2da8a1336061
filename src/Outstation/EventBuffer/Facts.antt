-- ===== src/Outstation/EventBuffer/Facts.antt =====
-- Counts of the records of a list.
use dnp.Prelude.{
  get_or, sym, ap, ◌∙◌, ℕ, suc, ◌+◌, ◌≤◌, Bool, true, false, ◌&&◌, List, [], ◌∷◌, ◌++◌,
  if◌then◌else◌, ◌≡◌, refl, length, arith, All,
}
use dnp.App.ClassField.{EventType, type_code}
use dnp.Outstation.EventCount.{Key, all, by_type, counted, same_type}
use dnp.Outstation.SoeRecord.{SoeRecord}

-- How many records have a property.
unfoldable pub count : {V : Type 0} → (SoeRecord V → Bool) → List (SoeRecord V) → ℕ
count p [] = 0
count p (r ∷ rs) = if p r then suc (count p rs) else count p rs

-- The sum of a number for each type.
unfoldable pub total_of : (EventType → ℕ) → ℕ
total_of f =
    f EventType.binary
    + f EventType.double_bit_binary
    + f EventType.analog
    + f EventType.counter
    + f EventType.frozen_counter
    + f EventType.binary_output_status
    + f EventType.analog_output_status
    + f EventType.security_stat

abbrev pub bit : Bool → ℕ
bit true = 1
bit false = 0

total_one : (t : EventType) → total_of (λ u. bit (same_type t u)) ≡ 1
unfolding total_of
total_one EventType.binary = refl
total_one EventType.double_bit_binary = refl
total_one EventType.analog = refl
total_one EventType.counter = refl
total_one EventType.frozen_counter = refl
total_one EventType.binary_output_status = refl
total_one EventType.analog_output_status = refl
total_one EventType.security_stat = refl

unfoldable type_of_code : ℕ → EventType
type_of_code code =
    get_or
      (EventType.binary ∷ EventType.analog ∷ EventType.counter ∷ EventType.frozen_counter
        ∷ EventType.double_bit_binary ∷ EventType.binary_output_status
        ∷ EventType.analog_output_status ∷ EventType.security_stat ∷ [])
      code EventType.security_stat

type_of_code-type_code : (t : EventType) → type_of_code (type_code t) ≡ t
unfolding type_of_code
type_of_code-type_code EventType.binary = refl
type_of_code-type_code EventType.analog = refl
type_of_code-type_code EventType.counter = refl
type_of_code-type_code EventType.frozen_counter = refl
type_of_code-type_code EventType.double_bit_binary = refl
type_of_code-type_code EventType.binary_output_status = refl
type_of_code-type_code EventType.analog_output_status = refl
type_of_code-type_code EventType.security_stat = refl

-- The numbers of the enumeration tell the types apart.
pub same_type_lem : (t u : EventType) → same_type t u ≡ true → t ≡ u
same_type_lem t u e =
    sym (type_of_code-type_code t) ∙ ap type_of_code (ground (arith, e)) ∙ type_of_code-type_code u

module _ {V : Type 0} where
  pub count_nil : (p : SoeRecord V → Bool) → count p [] ≡ 0
  unfolding count
  count_nil p = refl

  pub count-cons :
      (p : SoeRecord V → Bool) (x : SoeRecord V) (xs : List (SoeRecord V))
      → count p (x ∷ xs) ≡ bit (p x) + count p xs
  unfolding count
  count-cons p x xs = ground arith

  abbrev pub has_key : Key → SoeRecord V → Bool
  has_key k r = counted k r.clazz r.type

  abbrev pub selected_key : Key → SoeRecord V → Bool
  selected_key k r = counted k r.clazz r.type && r.selected

  abbrev pub written_key : Key → SoeRecord V → Bool
  written_key k r = counted k r.clazz r.type && r.written

  pub count-append :
      (p : SoeRecord V → Bool) (xs ys : List (SoeRecord V))
      → count p (xs ++ ys) ≡ count p xs + count p ys
  unfolding count
  count-append p [] ys = omega arith
  count-append p (x ∷ xs) ys = ground (arith, count-append p xs ys)

  pub count-le-length : (p : SoeRecord V → Bool) (xs : List (SoeRecord V)) → count p xs ≤ length xs
  unfolding count
  count-le-length p [] = omega arith
  count-le-length p (x ∷ xs) = ground (arith, count-le-length p xs)

  pub count_true : (xs : List (SoeRecord V)) → count (has_key all) xs ≡ length xs
  unfolding count
  count_true [] = refl
  count_true (x ∷ xs) = ground (arith, count_true xs)

  pub count_le :
      (p q : SoeRecord V → Bool) (xs : List (SoeRecord V))
      → All (λ r. p r ≡ true → q r ≡ true) xs
      → count p xs ≤ count q xs
  unfolding count
  count_le p q [] h = omega arith
  count_le p q (x ∷ xs) h = ground (arith, count_le p q xs h.1, h.0)

  -- The list splits by the type of its records.
  pub length_by_type :
      (xs : List (SoeRecord V)) → length xs ≡ total_of (λ t. count (has_key (by_type t)) xs)
  unfolding count total_of
  length_by_type [] = omega arith
  length_by_type (x ∷ xs) = omega (
    arith,
    length_by_type xs,
    total_one x.type,
    count-cons (has_key (by_type EventType.binary)) x xs,
    count-cons (has_key (by_type EventType.double_bit_binary)) x xs,
    count-cons (has_key (by_type EventType.analog)) x xs,
    count-cons (has_key (by_type EventType.counter)) x xs,
    count-cons (has_key (by_type EventType.frozen_counter)) x xs,
    count-cons (has_key (by_type EventType.binary_output_status)) x xs,
    count-cons (has_key (by_type EventType.analog_output_status)) x xs,
    count-cons (has_key (by_type EventType.security_stat)) x xs,
  )
