-- ===== src/App/FragmentHeader/RoundTrip.antt =====
-- The header that is written into a fragment is read back.
use dnp.Prelude.{
  bool_eq-true, ℕ, ◌≤◌, ◌<◌, ◌≡◌, refl, Bool, true, false, ◌&&◌, some, List, [], ◌∷◌, length, ◌==◌,
  bool_eq, every_below, every_below_lem, arith,
}
use dnp.App.FunctionCode.{FunctionCode, function_code_from_type-to_type}
use dnp.App.IinField.{IinField}
use dnp.App.FragmentHeader.{
  AppControlField, of_byte, to_byte, parse_request, parse_response, put, set_function, set_control,
  set_iin,
}

control : Bool → Bool → Bool → Bool → ℕ → AppControlField
control fir fin con uns seq = record { fir = fir; fin = fin; con = con; uns = uns; seq = seq }

control_table : Bool → Bool → Bool → Bool → ℕ → Bool
unfolding of_byte to_byte control
control_table fir fin con uns seq =
    let c = of_byte (to_byte (control fir fin con uns seq)) in
    bool_eq c.fir fir
    && (bool_eq c.fin fin && (bool_eq c.con con && (bool_eq c.uns uns && (c.seq == seq))))

control_table_holds :
    (fir fin con uns : Bool) → every_below 16 (control_table fir fin con uns) ≡ true
unfolding every_below control_table
control_table_holds true true true true = refl
control_table_holds true true true false = refl
control_table_holds true true false true = refl
control_table_holds true true false false = refl
control_table_holds true false true true = refl
control_table_holds true false true false = refl
control_table_holds true false false true = refl
control_table_holds true false false false = refl
control_table_holds false true true true = refl
control_table_holds false true true false = refl
control_table_holds false true false true = refl
control_table_holds false true false false = refl
control_table_holds false false true true = refl
control_table_holds false false true false = refl
control_table_holds false false false true = refl
control_table_holds false false false false = refl

-- A control field whose sequence number has four bits is the one that its byte gives.
pub of_byte-to_byte : (c : AppControlField) → c.seq < 16 → of_byte (to_byte c) ≡ c
unfolding control_table control
of_byte-to_byte c h = ground (
  arith,
  every_below_lem 16 (control_table c.fir c.fin c.con c.uns) c.seq h
      (control_table_holds c.fir c.fin c.con c.uns),
  bool_eq-true (of_byte (to_byte c)).fir c.fir,
  bool_eq-true (of_byte (to_byte c)).fin c.fin,
  bool_eq-true (of_byte (to_byte c)).con c.con,
  bool_eq-true (of_byte (to_byte c)).uns c.uns,
)

-- A request.
pub parse_request-set :
    (f : FunctionCode) (c : AppControlField) (buffer : List ℕ)
    → c.seq < 16
    → 2 ≤ length buffer
    → parse_request (set_control c (set_function f buffer))
      ≡ some (record { function = f; control = c })
unfolding parse_request set_control set_function put
parse_request-set f c [] h l = absurd (omega arith)
parse_request-set f c (x ∷ []) h l = absurd (omega arith)
parse_request-set f c (x ∷ y ∷ rest) h l =
    ground (arith, function_code_from_type-to_type f, of_byte-to_byte c h)

-- The function, the control field with a sequence number of four bits, and the indications that are
-- written into a buffer of at least four bytes are what ParseResponse reads from it.
pub parse_response-set :
    (f : FunctionCode) (c : AppControlField) (i : IinField) (buffer : List ℕ)
    → c.seq < 16
    → 4 ≤ length buffer
    → parse_response (set_iin i (set_control c (set_function f buffer)))
      ≡ some (record { function = f; control = c; iin = i })
unfolding parse_response set_control set_function set_iin put
parse_response-set f c i [] h l = absurd (omega arith)
parse_response-set f c i (x ∷ []) h l = absurd (omega arith)
parse_response-set f c i (x ∷ y ∷ []) h l = absurd (omega arith)
parse_response-set f c i (x ∷ y ∷ z ∷ []) h l = absurd (omega arith)
parse_response-set f c i (x ∷ y ∷ z ∷ w ∷ rest) h l =
    ground (arith, function_code_from_type-to_type f, of_byte-to_byte c h)
