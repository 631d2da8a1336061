-- ===== src/Outstation/EventBufferConfig.antt =====
-- opendnp3/outstation/EventBufferConfig.h and EventBufferConfig.cpp: how many events of each type the
-- buffer keeps.
use dnp.Prelude.{ℕ, ◌+◌}
use dnp.App.ClassField.{
  EventType, binary, analog, counter, frozen_counter, double_bit_binary, binary_output_status,
  analog_output_status, security_stat,
}

pub record EventBufferConfig : Type 0 where
  pub max_binary_events : ℕ
  pub max_double_binary_events : ℕ
  pub max_analog_events : ℕ
  pub max_counter_events : ℕ
  pub max_frozen_counter_events : ℕ
  pub max_binary_output_status_events : ℕ
  pub max_analog_output_status_events : ℕ
  pub max_security_statistic_events : ℕ

unfoldable pub all_types : ℕ → EventBufferConfig
all_types sizes = record {
  max_binary_events = sizes;
  max_double_binary_events = sizes;
  max_analog_events = sizes;
  max_counter_events = sizes;
  max_frozen_counter_events = sizes;
  max_binary_output_status_events = sizes;
  max_analog_output_status_events = sizes;
  max_security_statistic_events = sizes;
}

unfoldable pub get_max_events_for_type : EventBufferConfig → EventType → ℕ
get_max_events_for_type config binary = config.max_binary_events
get_max_events_for_type config double_bit_binary = config.max_double_binary_events
get_max_events_for_type config binary_output_status = config.max_binary_output_status_events
get_max_events_for_type config counter = config.max_counter_events
get_max_events_for_type config frozen_counter = config.max_frozen_counter_events
get_max_events_for_type config analog = config.max_analog_events
get_max_events_for_type config analog_output_status = config.max_analog_output_status_events
get_max_events_for_type config security_stat = config.max_security_statistic_events

-- The sum of eight 16-bit numbers, which 32 bits hold.
unfoldable pub total_events : EventBufferConfig → ℕ
total_events config =
    config.max_binary_events + config.max_double_binary_events + config.max_analog_events
    + config.max_counter_events + config.max_frozen_counter_events
    + config.max_binary_output_status_events + config.max_analog_output_status_events
    + config.max_security_statistic_events
