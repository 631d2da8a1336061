-- ===== src/Outstation/RequestExamples.antt =====
-- Selects, repeated requests and their checks at concrete values.
use dnp.Prelude.{ℕ, ◌-◌, ◌+◌, ◌%◌, ◌≤◌, ◌<◌, List, [], ◌∷◌, ◌++◌, ◌≡◌, ◌≢◌, ◌↔◌, length, All, arith}
use dnp.Link.Crc.{calc_crc}
use dnp.App.FunctionCode.{operate, function_code_to_type}
use dnp.App.FragmentHeader.{ApduHeader, request_control}
use dnp.Outstation.ControlState.{success, new_control, select, validate_selection}
use dnp.Outstation.ControlState.Laws.{validate_selection-select, validate_selection_change}
use dnp.Outstation.RequestHistory.{
  new_history, repeat_non_read, is_read, record_last_processed_request, process_new_request,
  on_receive_sol_request,
}
use dnp.Outstation.RequestHistory.Laws.{on_receive_sol_request-repeat, on_receive_sol_request-new}

-- The objects of two commands, which differ in the index of the point.
abbrev first_command : List ℕ
first_command = 12 ∷ 1 ∷ 23 ∷ 1 ∷ 3 ∷ []

validate_selection-select_example :
    (validate_selection 0 1500 10000 first_command (select 15 1000 first_command new_control)
      ≡ success)
    ↔ ((0 ≡ (15 + 1) % 16)
        × (1000 ≤ 1500)
        × (1500 - 1000 < 10000)
        × (length first_command ≡ length first_command)
        × (calc_crc first_command ≡ calc_crc first_command))
validate_selection-select_example =
    validate_selection-select 15 0 1000 1500 10000 first_command first_command new_control

first_command_bytes : All (λ x. x < 256) ((12 ∷ 1 ∷ 23 ∷ 1 ∷ []) ++ 3 ∷ [])
first_command_bytes = (omega arith, (omega arith, (omega arith, (omega arith, (omega arith, tt)))))

second_command_bytes : All (λ x. x < 256) ((12 ∷ 1 ∷ 23 ∷ 1 ∷ []) ++ 4 ∷ [])
second_command_bytes = (omega arith, (omega arith, (omega arith, (omega arith, (omega arith, tt)))))

abbrev three : ℕ
three = 3

three_four : three ≢ 4
three_four e = absurd (omega (arith, e))

validate_selection_change_example :
    validate_selection 0 1500 10000
      ((12 ∷ 1 ∷ 23 ∷ 1 ∷ []) ++ 4 ∷ [])
      (select 15 1000 ((12 ∷ 1 ∷ 23 ∷ 1 ∷ []) ++ 3 ∷ []) new_control)
    ≢ success
validate_selection_change_example =
    validate_selection_change 15 0 1000 1500 10000 (12 ∷ 1 ∷ 23 ∷ 1 ∷ []) 3 4 [] new_control
      first_command_bytes second_command_bytes three_four

abbrev operate_request : ApduHeader
operate_request = record { function = operate; control = request_control 5 }

on_receive_sol_request-repeat_example :
    on_receive_sol_request operate_request first_command
      (process_new_request operate_request).0
      (record_last_processed_request operate_request first_command new_history)
    ≡ (5, repeat_non_read)
unfolding process_new_request is_read request_control function_code_to_type
on_receive_sol_request-repeat_example =
    on_receive_sol_request-repeat operate_request first_command new_history

on_receive_sol_request-new_example :
    on_receive_sol_request operate_request
      ((12 ∷ 1 ∷ 23 ∷ 1 ∷ []) ++ 4 ∷ [])
      5
      (record_last_processed_request operate_request ((12 ∷ 1 ∷ 23 ∷ 1 ∷ []) ++ 3 ∷ []) new_history)
    ≡ process_new_request operate_request
on_receive_sol_request-new_example =
    on_receive_sol_request-new operate_request operate_request (12 ∷ 1 ∷ 23 ∷ 1 ∷ []) 3 4 [] 5
      new_history first_command_bytes second_command_bytes three_four
