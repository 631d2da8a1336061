-- ===== src/Transport/Sessions.antt =====
-- What the transport layer does over any sequence of calls.
use dnp.Prelude.{
  ℕ, suc, ◌+◌, ◌≤◌, ◌≡◌, Bool, true, false, List, [], ◌∷◌, ◌++◌, arith, if◌then◌else◌,
}
use dnp.Transport.Layer.{
  Action, TransportLayer, link_send, upper_send_result, post_send_failure, begin_transmit,
  on_receive, on_send_result, on_lower_layer_up, on_lower_layer_down,
}

-- The calls that the neighbours make.
pub data Call : Type 0 where
  transmits : List ℕ → Call
  receives : List ℕ → Call
  send_ends : Bool → Call
  goes_up goes_down : Call

unfoldable pub step : TransportLayer → Call → TransportLayer × List Action
step t (transmits apdu) = begin_transmit t apdu
step t (receives tpdu) = let r = on_receive t tpdu in (r.0, r.1)
step t (send_ends ok) = let r = on_send_result t ok in (r.0, r.1)
step t goes_up = let r = on_lower_layer_up t in (r.0, r.1)
step t goes_down = let r = on_lower_layer_down t in (r.0, r.1)

unfoldable pub run : TransportLayer → List Call → TransportLayer × List Action
run t [] = (t, [])
run t (c ∷ cs) = let (t', out) = step t c in let (t'', outs) = run t' cs in (t'', out ++ outs)

-- How many transmissions the link was given, and how many results the application got.
pub sends : List Action → ℕ
sends [] = 0
sends (link_send _ ∷ rest) = suc (sends rest)
sends (_ ∷ rest) = sends rest

pub results : List Action → ℕ
results [] = 0
results (upper_send_result _ ∷ rest) = suc (results rest)
results (_ ∷ rest) = results rest

abbrev pub pending : TransportLayer → ℕ
pending t = if t.is_sending then 1 else 0

sends-append : (xs ys : List Action) → sends (xs ++ ys) ≡ sends xs + sends ys
unfolding sends
sends-append [] ys = omega arith
sends-append (link_send tx ∷ xs) ys = omega (arith, sends-append xs ys)
sends-append (_ ∷ xs) ys = omega (arith, sends-append xs ys)

results-append : (xs ys : List Action) → results (xs ++ ys) ≡ results xs + results ys
unfolding results
results-append [] ys = omega arith
results-append (upper_send_result b ∷ xs) ys = omega (arith, results-append xs ys)
results-append (_ ∷ xs) ys = omega (arith, results-append xs ys)

step_account :
    (t : TransportLayer) (c : Call)
    → t.has_link ≡ true
    → let r = step t c in
      (results r.1 + pending r.0 ≤ sends r.1 + pending t) × (r.0.has_link ≡ true)
unfolding step sends results begin_transmit on_receive on_send_result on_lower_layer_up
    on_lower_layer_down
step_account t (transmits apdu) h = ground arith
step_account t (receives tpdu) h = ground arith
step_account t (send_ends ok) h = ground arith
step_account t goes_up h = ground arith
step_account t goes_down h = ground arith

-- Over any sequence of calls on a layer with a link, the application gets at most one result for each
-- transmission that the link was given (and for one that was already under way); a transmission that
-- is still under way at the end has had none.
pub run_account :
    (t : TransportLayer) (cs : List Call)
    → t.has_link ≡ true
    → let r = run t cs in results r.1 + pending r.0 ≤ sends r.1 + pending t
unfolding run sends results
run_account t [] h = omega arith
run_account t (c ∷ cs) h =
    let (now, linked) = step_account t c h in
    omega (
      arith,
      now,
      run_account (step t c).0 cs linked,
      sends-append (step t c).1 (run (step t c).0 cs).1,
      results-append (step t c).1 (run (step t c).0 cs).1,
    )

-- The result posted for an empty fragment answers no transmission: on an online layer with both
-- neighbours it is dropped when nothing is under way, and otherwise ends the transmission under way
-- with a failure, so that the link's own result for it is then refused.
pub empty_transmit_result :
    (t : TransportLayer) (ok : Bool)
    → t.is_online ≡ true
    → t.has_upper ≡ true
    → let posted = begin_transmit t [] in
      let answered = on_send_result posted.0 false in
      (posted.1 ≡ post_send_failure ∷ [])
      × (answered.1 ≡ (if t.is_sending then upper_send_result false ∷ [] else []))
      × ((on_send_result answered.0 ok).2 ≡ false)
unfolding begin_transmit on_send_result
empty_transmit_result t ok online upper = ground arith
