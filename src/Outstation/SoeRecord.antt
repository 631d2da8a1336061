-- ===== src/Outstation/SoeRecord.antt =====
-- opendnp3/outstation/SOERecord.h and SOERecord.cpp: one event of the sequence of events. `V` is the type
-- of the measured values, and the member of the union that the type names holds a value with its two
-- variations, which are kept as the numbers of their enumerations.
use dnp.Prelude.{ℕ, Bool, true, false}
use dnp.App.ClassField.{EventType, EventClass}

pub record ValueAndVariation (V : Type 0) : Type 0 where
  pub value : V
  pub default_variation : ℕ
  pub selected_variation : ℕ

unfoldable pub select_default_variation : {V : Type 0} → ValueAndVariation V → ValueAndVariation V
select_default_variation v = record v { selected_variation = v.default_variation }

pub record SoeRecord (V : Type 0) : Type 0 where
  pub type : EventType
  pub clazz : EventClass
  pub selected : Bool
  pub written : Bool
  pub value : ValueAndVariation V
  pub index : ℕ
  pub time : ℕ
  pub flags : ℕ

-- The constructors from a measurement.
unfoldable pub new_record :
    {V : Type 0}
    → EventType
    → V
    → (time flags index : ℕ) → EventClass
    → (variation : ℕ) → SoeRecord V
new_record t v time flags index c variation = record {
  type = t;
  clazz = c;
  selected = false;
  written = false;
  value = record { value = v; default_variation = variation; selected_variation = variation };
  index = index;
  time = time;
  flags = flags;
}

unfoldable pub reset : {V : Type 0} → SoeRecord V → SoeRecord V
reset r = record r { selected = false; written = false }

unfoldable pub select_default : {V : Type 0} → SoeRecord V → SoeRecord V
select_default r = record r { selected = true; value = select_default_variation r.value }

unfoldable pub select : {V : Type 0} → ℕ → SoeRecord V → SoeRecord V
select variation r = record r {
  selected = true;
  value = record (r.value) { selected_variation = variation };
}
