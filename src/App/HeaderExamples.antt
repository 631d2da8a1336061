-- ===== src/App/HeaderExamples.antt =====
-- The header of a response and its indications at concrete values.
use dnp.Prelude.{true, false, some, [], ◌∷◌, ◌≡◌, arith, if◌then◌else◌, ◌==◌}
use dnp.App.FunctionCode.{response}
use dnp.App.IinField.{IinField, device_restart, need_time, is_set, set_bit_to_value}
use dnp.App.IinField.Laws.{position, is_set-set_bit_to_value}
use dnp.App.FragmentHeader.{AppControlField, parse_response, set_function, set_control, set_iin}
use dnp.App.FragmentHeader.RoundTrip.{parse_response-set}

abbrev indications : IinField
indications = record { lsb = 0x90; msb = 0 }

abbrev one_fragment : AppControlField
one_fragment = record { fir = true; fin = true; con = true; uns = false; seq = 9 }

parse_response-set_example :
    parse_response (
      set_iin indications
        (set_control one_fragment (set_function response (0 ∷ 0 ∷ 0 ∷ 0 ∷ 1 ∷ 2 ∷ []))))
    ≡ some (record { function = response; control = one_fragment; iin = indications })
parse_response-set_example =
    parse_response-set response one_fragment indications (0 ∷ 0 ∷ 0 ∷ 0 ∷ 1 ∷ 2 ∷ []) (omega arith)
      (omega arith)

is_set-set_bit_to_value_example :
    is_set need_time (set_bit_to_value device_restart false indications) ≡ (
      if position device_restart == position need_time then false else is_set need_time indications)
is_set-set_bit_to_value_example =
    is_set-set_bit_to_value device_restart need_time false indications (omega arith) (omega arith)
