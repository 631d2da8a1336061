-- ===== src/Outstation/EventCount.antt =====
-- opendnp3/outstation/EventCount.h and EventCount.cpp: the number of events in all, of each type and of
-- each class, as 32-bit counters. An array indexed by an enumeration is a function of it.
use dnp.Prelude.{ℕ, Bool, true, false, if◌then◌else◌, ◌+◌, ◌-◌, ◌%◌, ◌==◌, ltb, ◌≡◌, refl}
use dnp.App.ClassField
use dnp.App.ClassField.{EventType, EventClass, type_code, class_code, ec1, ec2, ec3, ClassField}

-- The 32-bit operations.
abbrev pub add32 : ℕ → ℕ → ℕ
add32 a b = (a + b) % 4294967296

abbrev pub sub32 : ℕ → ℕ → ℕ
sub32 a b = (a + 4294967296 - b) % 4294967296

abbrev pub same_type : EventType → EventType → Bool
same_type t u = type_code t == type_code u

abbrev pub same_class : EventClass → EventClass → Bool
same_class c d = class_code c == class_code d

pub record EventCount : Type 0 where
  pub total : ℕ
  pub of_type : EventType → ℕ
  pub of_class : EventClass → ℕ

unfoldable pub cleared : EventCount
cleared = record { total = 0; of_type = λ t. 0; of_class = λ c. 0 }

unfoldable pub num_of_type : EventCount → EventType → ℕ
num_of_type n t = n.of_type t

unfoldable pub num_of_class : EventCount → EventClass → ℕ
num_of_class n c = n.of_class c

unfoldable pub num_of_classes : EventCount → ClassField → ℕ
num_of_classes n field =
    let ret1 = if ClassField.has_class1 field then num_of_class n ec1 else 0 in
    let ret2 = if ClassField.has_class2 field then add32 ret1 (num_of_class n ec2) else ret1 in
    if ClassField.has_class3 field then add32 ret2 (num_of_class n ec3) else ret2

unfoldable pub to_class_field : EventCount → ClassField
to_class_field n =
    ClassField.of_flags false (ltb 0 (num_of_class n ec1)) (ltb 0 (num_of_class n ec2))
      (ltb 0 (num_of_class n ec3))

unfoldable pub is_empty : EventCount → Bool
is_empty n = ClassField.is_empty (to_class_field n)

unfoldable pub increment : EventCount → EventClass → EventType → EventCount
increment n c t = record {
  total = add32 n.total 1;
  of_type = λ u. if same_type t u then add32 (n.of_type u) 1 else n.of_type u;
  of_class = λ d. if same_class c d then add32 (n.of_class d) 1 else n.of_class d;
}

unfoldable pub decrement : EventCount → EventClass → EventType → EventCount
decrement n c t = record {
  total = sub32 n.total 1;
  of_type = λ u. if same_type t u then sub32 (n.of_type u) 1 else n.of_type u;
  of_class = λ d. if same_class c d then sub32 (n.of_class d) 1 else n.of_class d;
}

-- One counter of the eight, the three and the total.
pub data Key : Type 0 where
  all : Key
  by_type : EventType → Key
  by_class : EventClass → Key

abbrev pub amount : EventCount → Key → ℕ
amount n all = n.total
amount n (by_type t) = n.of_type t
amount n (by_class c) = n.of_class c

-- An event of class `c` and type `t` moves this counter.
abbrev pub counted : Key → EventClass → EventType → Bool
counted all c t = true
counted (by_type u) c t = same_type t u
counted (by_class d) c t = same_class c d

pub amount-increment :
    (n : EventCount) (c : EventClass) (t : EventType) (k : Key)
    → amount (increment n c t) k ≡ (if counted k c t then add32 (amount n k) 1 else amount n k)
unfolding increment
amount-increment n c t all = refl
amount-increment n c t (by_type u) = refl
amount-increment n c t (by_class d) = refl

pub amount-decrement :
    (n : EventCount) (c : EventClass) (t : EventType) (k : Key)
    → amount (decrement n c t) k ≡ (if counted k c t then sub32 (amount n k) 1 else amount n k)
unfolding decrement
amount-decrement n c t all = refl
amount-decrement n c t (by_type u) = refl
amount-decrement n c t (by_class d) = refl
