-- ===== src/Outstation/ControlState.antt =====
-- opendnp3/outstation/ControlState.h: what a select leaves for the operate behind it.
pub mod Laws
use dnp.Prelude.{ℕ, ◌-◌, Bool, List, ◌&&◌, if◌then◌else◌, ltb, leb, ◌==◌, length}
use dnp.Openpal.SequenceNum.{next}
use dnp.Link.Crc.{calc_crc}

-- The members of `CommandStatus` that the checks give.
pub data CommandStatus : Type 0 where
  success timeout no_select : CommandStatus

-- The modulus of `AppSeqNum`.
abbrev pub app_seq_modulus : ℕ
app_seq_modulus = 16

-- Times are milliseconds of the monotonic clock.
pub record ControlState : Type 0 where
  pub expected_seq : ℕ
  pub select_time : ℕ
  pub digest : ℕ
  pub length : ℕ

abbrev pub new_control : ControlState
new_control = record { expected_seq = 0; select_time = 0; digest = 0; length = 0 }

unfoldable pub validate_selection : ℕ → ℕ → ℕ → List ℕ → ControlState → CommandStatus
validate_selection seq now select_timeout objects c =
    if c.expected_seq == seq
    then (if leb c.select_time now
        then (let elapsed = now - c.select_time in
            if ltb elapsed select_timeout
            then (if c.length == length objects && (c.digest == calc_crc objects)
                then success
                else no_select)
            else timeout)
        else timeout)
    else no_select

unfoldable pub select : ℕ → ℕ → List ℕ → ControlState → ControlState
select current_seq now objects c = record {
  select_time = now;
  expected_seq = next app_seq_modulus current_seq;
  digest = calc_crc objects;
  length = length objects;
}
