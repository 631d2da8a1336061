-- ===== src/Outstation/ControlState/Laws.antt =====
-- An operate finds its select, and only that.
use dnp.Prelude.{
  ℕ, ◌+◌, ◌-◌, ◌%◌, ◌≤◌, ◌<◌, ◌≡◌, ◌≢◌, ◌↔◌, List, ◌∷◌, ◌++◌, length, All, arith, sym,
}
use dnp.Link.Crc.{calc_crc}
use dnp.Link.Crc.Errors.{calc_crc-change}
use dnp.Outstation.ControlState.{success, ControlState, select, validate_selection}

-- An operate is accepted behind a select exactly when it has the next sequence number, comes neither
-- before the select nor as late as the timeout, and has objects of the same length and checksum.
pub validate_selection-select :
    (seq seq' now now' select_timeout : ℕ) (objects objects' : List ℕ) (c : ControlState)
    → (validate_selection seq' now' select_timeout objects' (select seq now objects c) ≡ success)
      ↔ ((seq' ≡ (seq + 1) % 16)
          × (now ≤ now')
          × (now' - now < select_timeout)
          × (length objects' ≡ length objects)
          × (calc_crc objects' ≡ calc_crc objects))
unfolding validate_selection select
validate_selection-select seq seq' now now' select_timeout objects objects' c = ground arith

-- An operate is refused whose objects differ from the selected ones in exactly one byte, whatever
-- its sequence number and its time.
pub validate_selection_change :
    (seq seq' now now' select_timeout : ℕ) (before : List ℕ) (a b : ℕ) (behind : List ℕ)
    (c : ControlState)
    → All (λ x. x < 256) (before ++ a ∷ behind)
    → All (λ x. x < 256) (before ++ b ∷ behind)
    → a ≢ b
    → validate_selection seq' now' select_timeout
        (before ++ b ∷ behind)
        (select seq now (before ++ a ∷ behind) c)
      ≢ success
validate_selection_change seq seq' now now' select_timeout before a b behind c ha hb ne e =
    calc_crc-change before b a behind hb ha (λ p. ne (sym p))
      ((validate_selection-select seq seq' now now' select_timeout (before ++ a ∷ behind)
          (before ++ b ∷ behind) c).0
        e).4
